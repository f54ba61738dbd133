-- ===== src/Domain/Approval/Branches.antt =====
-- `ApprovalHash` and the line ends of a text.
use nomadposting.Prelude.{◌≡◌, Bool, false, Str, has_byte}
use nomadposting.Domain.Content.{cr}
use nomadposting.Domain.Content.Normal.{with_crlf, normalize_content-with_crlf}
use nomadposting.Domain.Approval.{approval_hash}

module _ (sha256 : Str → Str) where
  -- An editor that sends CR LF for each LF of a text does not change the hash to approve.
  pub approval_hash-with_crlf :
      (s : Str) (x n : Bool) (at : Str)
      → has_byte cr s ≡ false
      → approval_hash sha256 (with_crlf s) x n at ≡ approval_hash sha256 s x n at
  unfolding approval_hash
  approval_hash-with_crlf s x n at h = rw (normalize_content-with_crlf s h)
