-- ===== src/Platform/Errors.antt =====
-- internal/platform/errors.go: normalized failures of a publication. The cause, which is neither
-- shown nor stored, is left out.
use nomadposting.Prelude.{
  ℕ, Bool, false, ◌++◌, Option, none, some, Str, text, length, ◌==◌, pos, if◌then◌else◌,
}
use nomadposting.Clock.{Duration}
use nomadposting.Platform.Contracts.{Platform, platform_text}

pub data ErrorCode : Type 0 where
  invalid_payload unauthorized forbidden rate_limited remote_rejected : ErrorCode
  temporary ambiguous_result response_too_large protocol_error signing : ErrorCode

abbrev pub code_text : ErrorCode → Str
code_text ErrorCode.invalid_payload = text "invalid_payload"
code_text ErrorCode.unauthorized = text "unauthorized"
code_text ErrorCode.forbidden = text "forbidden"
code_text ErrorCode.rate_limited = text "rate_limited"
code_text ErrorCode.remote_rejected = text "remote_rejected"
code_text ErrorCode.temporary = text "temporary_failure"
code_text ErrorCode.ambiguous_result = text "ambiguous_result"
code_text ErrorCode.response_too_large = text "response_too_large"
code_text ErrorCode.protocol_error = text "protocol_error"
code_text ErrorCode.signing = text "signing_failure"

pub record PlatformError : Type 0 where
  pub platform : Platform
  pub code : ErrorCode
  pub http_status : ℕ
  pub retry_after : Duration
  pub message : Str
  pub ambiguous : Bool

-- A literal that names platform, code and message only.
abbrev pub failure : Platform → ErrorCode → Str → PlatformError
failure platform code message = record {
  platform = platform;
  code = code;
  http_status = 0;
  retry_after = pos 0;
  message = message;
  ambiguous = false;
}

-- `Error`, of an error or of nil.
unfoldable pub error_text : Option PlatformError → Str
error_text none = text "<nil>"
error_text (some e) =
    platform_text e.platform
    ++ (text " publish: " ++ (if length e.message == 0 then code_text e.code else e.message))
