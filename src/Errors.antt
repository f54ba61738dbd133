-- ===== src/Errors.antt =====
-- The errors of the controller's packages (internal/domain, internal/secure, internal/store and
-- internal/app). One constructor stands for one `errors.New` or sentinel; a wrapped error is the
-- error that it wraps.
use nomadposting.Prelude.{Str}

pub data Error : Type 0 where
  -- internal/domain
  invalid_content no_destination invalid_transition : Error
  -- internal/secure
  invalid_master_key invalid_envelope bad_key_size : Error
  -- the operating system's random source and the database driver
  entropy_error database_error : Error
  -- internal/store
  not_found sealer_required decode_error : Error
  -- internal/app
  content_erased hash_mismatch not_due hash_drift : Error
  emergency_stop_active : Str → Error
