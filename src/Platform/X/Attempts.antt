-- ===== src/Platform/X/Attempts.antt =====
-- internal/platform/x.go: what a publication can have done when it returns.
use nomadposting.Prelude.{
  ℕ, ◌≡◌, refl, inl, inr, Bool, true, false, Option, none, some, Str, ◌==◌, if_both, if◌then◌else◌,
  arith, Bool-cases,
}
use nomadposting.Unicode.{is_blank}
use nomadposting.Clock.{Time}
use nomadposting.Platform.Contracts.{complete, unknown, Receipt}
use nomadposting.Platform.Errors.{PlatformError}
use nomadposting.Platform.X.Status.{
  Response, Bounded, unreadable, too_large, read, read_bounded, classify_x_status_at,
}
use nomadposting.Platform.X.Connector.{
  Attempt, max_response_bytes, doubtful, unusable, unread, oversized, unanswered, with_state,
  decoded, examined, concluded, is_unauthorized,
}

-- What an answer leaves of a receipt and an error.
pub data Conclusion (r : Receipt) (a : Attempt) : Type 0 where
  posted : a.1 ≡ none → a.0.state ≡ complete → is_blank a.0.external_id ≡ false → Conclusion r a
  in_doubt :
      (f : PlatformError) → a.1 ≡ some f → f.ambiguous ≡ true → a.0.state ≡ unknown → Conclusion r a
  refused : (f : PlatformError) → a.1 ≡ some f → f.ambiguous ≡ false → a.0 ≡ r → Conclusion r a

classify-ambiguous :
    (status : ℕ) (header : Str → Str) (now : Time)
    → (classify_x_status_at status header now).ambiguous ≡ false
unfolding classify_x_status_at
classify-ambiguous status header now = ground arith

classify-http_status :
    (status : ℕ) (header : Str → Str) (now : Time)
    → (classify_x_status_at status header now).http_status ≡ status
unfolding classify_x_status_at
classify-http_status status header now = ground arith

module _ (decode : Str → Option Str) (now : Time) where
  identified-Conclusion :
      (status : ℕ) (r : Receipt) (id : Str) (blank : Bool)
      → is_blank id ≡ blank
      → Conclusion r
          (if blank then doubtful r (unusable status) else (with_state complete id r, none))
  identified-Conclusion status r id true e = in_doubt (unusable status) refl refl refl
  identified-Conclusion status r id false e = posted refl refl e

  decoded-Conclusion :
      (status : ℕ) (r : Receipt) (id : Option Str) → Conclusion r (decoded status r id)
  decoded-Conclusion status r none = in_doubt (unusable status) refl refl refl
  decoded-Conclusion status r (some id) = identified-Conclusion status r id (is_blank id) refl

  classified-Conclusion :
      (r : Receipt) (response : Response)
      → Conclusion r (r, some (classify_x_status_at response.status response.header now))
  classified-Conclusion r response =
      refused (classify_x_status_at response.status response.header now) refl
        (classify-ambiguous response.status response.header now) refl

  examined-Conclusion :
      (r : Receipt) (response : Response) (b : Bounded)
      → Conclusion r (examined decode now r response b)
  examined-Conclusion r response unreadable = in_doubt (unread response.status) refl refl refl
  examined-Conclusion r response too_large = in_doubt (oversized response.status) refl refl refl
  examined-Conclusion r response (read body) =
      if_both (Conclusion r) (response.status == 201) (decoded response.status r (decode body))
        (r, some (classify_x_status_at response.status response.header now))
        (decoded-Conclusion response.status r (decode body)) (classified-Conclusion r response)

  pub concluded-Conclusion :
      (r : Receipt) (answer : Option Response) → Conclusion r (concluded decode now r answer)
  unfolding concluded
  concluded-Conclusion r none = in_doubt unanswered refl refl refl
  concluded-Conclusion r (some response) =
      examined-Conclusion r response (read_bounded response max_response_bytes)

  decoded-attempt_count :
      (status : ℕ) (r : Receipt) (id : Option Str)
      → (decoded status r id).0.attempt_count ≡ r.attempt_count
  decoded-attempt_count status r none = refl
  decoded-attempt_count status r (some id) = ground arith

  examined-attempt_count :
      (r : Receipt) (response : Response) (b : Bounded)
      → (examined decode now r response b).0.attempt_count ≡ r.attempt_count
  examined-attempt_count r response unreadable = refl
  examined-attempt_count r response too_large = refl
  examined-attempt_count r response (read body) =
      if_both (λ (a : Attempt). a.0.attempt_count ≡ r.attempt_count) (response.status == 201)
        (decoded response.status r (decode body))
        (r, some (classify_x_status_at response.status response.header now))
        (decoded-attempt_count response.status r (decode body)) refl

  pub concluded-attempt_count :
      (r : Receipt) (answer : Option Response)
      → (concluded decode now r answer).0.attempt_count ≡ r.attempt_count
  unfolding concluded
  concluded-attempt_count r none = refl
  concluded-attempt_count r (some response) =
      examined-attempt_count r response (read_bounded response max_response_bytes)

  decoded-unauthorized :
      (status : ℕ) (r : Receipt) (id : Option Str)
      → is_unauthorized (decoded status r id).1 ≡ true
      → status ≡ 401
  decoded-unauthorized status r none h = ground arith
  decoded-unauthorized status r (some id) h = ground arith

  examined-unauthorized :
      (r : Receipt) (response : Response) (b : Bounded)
      → is_unauthorized (examined decode now r response b).1 ≡ true
      → response.status ≡ 401
  examined-unauthorized r response unreadable h = ground arith
  examined-unauthorized r response too_large h = ground arith
  examined-unauthorized r response (read body) h = elim (Bool-cases (response.status == 201)) [
    | inl e ↦ decoded-unauthorized response.status r (decode body) (ground arith)
    | inr e ↦ ground (arith, classify-http_status response.status response.header now)
  ]

  -- Only a response with that status counts as a rejected credential.
  pub concluded-unauthorized :
      (r : Receipt) (answer : Option Response)
      → is_unauthorized (concluded decode now r answer).1 ≡ true
      → (response : Response) × (answer ≡ some response) × (response.status ≡ 401)
  unfolding concluded
  concluded-unauthorized r none h = absurd (ground arith)
  concluded-unauthorized r (some response) h = (
    response,
    refl,
    examined-unauthorized r response (read_bounded response max_response_bytes) h,
  )
