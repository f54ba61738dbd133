-- ===== src/Domain/Content/Normal.antt =====
-- `NormalizeContent`: what it accepts and what it returns.
use nomadposting.Prelude.{
  ◌≡◌, refl, sym, subst, ◌↔◌, ◌⊎◌, true, false, [], ◌∷◌, Str, has_byte, ◌==◌, ok, err,
  if◌then◌else◌, arith,
}
use nomadposting.Unicode.{valid_string, is_blank}
use nomadposting.Errors.{invalid_content}
use nomadposting.Domain.Content.{
  cr, lf, replace_crlf, replace_cr, to_lf, is_publishable, normalize_content,
}

-- A text with every LF written as CR LF.
pub with_crlf : Str → Str
with_crlf [] = []
with_crlf (c ∷ s) = if c == lf then cr ∷ lf ∷ with_crlf s else c ∷ with_crlf s

no_cr-replace_cr : (s : Str) → has_byte cr (replace_cr s) ≡ false
unfolding replace_cr has_byte
no_cr-replace_cr [] = refl
no_cr-replace_cr (c ∷ s) = ground (arith, no_cr-replace_cr s)

replace_crlf-no_cr : (s : Str) → has_byte cr s ≡ false → replace_crlf s ≡ s
unfolding replace_crlf has_byte
replace_crlf-no_cr [] h = refl
replace_crlf-no_cr (c ∷ s) h = ground (arith, replace_crlf-no_cr s)

replace_cr-no_cr : (s : Str) → has_byte cr s ≡ false → replace_cr s ≡ s
unfolding replace_cr has_byte
replace_cr-no_cr [] h = refl
replace_cr-no_cr (c ∷ s) h = ground (arith, replace_cr-no_cr s)

no_cr-to_lf : (s : Str) → has_byte cr (to_lf s) ≡ false
unfolding to_lf
no_cr-to_lf s = no_cr-replace_cr (replace_crlf s)

to_lf-no_cr : (s : Str) → has_byte cr s ≡ false → to_lf s ≡ s
unfolding to_lf
to_lf-no_cr s h = rw (replace_crlf-no_cr s h) (replace_cr-no_cr s h)

replace_crlf-with_crlf : (s : Str) → has_byte cr s ≡ false → replace_crlf (with_crlf s) ≡ s
unfolding replace_crlf with_crlf has_byte
replace_crlf-with_crlf [] h = refl
replace_crlf-with_crlf (c ∷ s) h = ground (arith, replace_crlf-with_crlf s)

to_lf-with_crlf : (s : Str) → has_byte cr s ≡ false → to_lf (with_crlf s) ≡ to_lf s
unfolding to_lf
to_lf-with_crlf s h = rw (replace_crlf-with_crlf s h, replace_crlf-no_cr s h)

-- What `ErrInvalidContent` tells of a text.
pub record IsPublishable (s : Str) : Type 0 where
  pub well_formed : valid_string s ≡ true
  pub no_nul : has_byte 0 s ≡ false
  pub not_blank : is_blank s ≡ false
  pub no_cr : has_byte cr s ≡ false

is_publishable_iff :
    (s : Str)
    → (is_publishable s ≡ true)
      ↔ ((valid_string s ≡ true) × (has_byte 0 s ≡ false) × (is_blank s ≡ false))
unfolding is_publishable
is_publishable_iff s = (λ h. ground arith, λ h. ground arith)

normalize_content-eq :
    (s : Str) → is_publishable (to_lf s) ≡ true → normalize_content s ≡ ok (to_lf s)
unfolding normalize_content is_publishable
normalize_content-eq s h = rw h

pub normalize_content_iff :
    (s t : Str) → (normalize_content s ≡ ok t) ↔ ((t ≡ to_lf s) × IsPublishable t)
unfolding normalize_content is_publishable
normalize_content_iff s t = (
  λ h. let e : t ≡ to_lf s = ground arith in (e, rw e (ground (arith, no_cr-to_lf s))),
  λ p.
      let e : IsPublishable (to_lf s) = subst IsPublishable p.0 p.1 in
      rw (p.0) (
        normalize_content-eq s
          ((is_publishable_iff (to_lf s)).1 (e.well_formed, e.no_nul, e.not_blank))),
)

-- What `NormalizeContent` returned it returns again: the text that is sealed, shown and hashed is
-- one text.
pub normalize_content_idem : (s t : Str) → normalize_content s ≡ ok t → normalize_content t ≡ ok t
normalize_content_idem s t h =
    let p = (normalize_content_iff s t).0 h in
    (normalize_content_iff t t).1 (sym (to_lf-no_cr t p.1.no_cr), p.1)

-- Every other text is refused with `ErrInvalidContent`.
pub normalize_content_cases :
    (s : Str) → (normalize_content s ≡ ok (to_lf s)) ⊎ (normalize_content s ≡ err invalid_content)
unfolding normalize_content
normalize_content_cases s = ground arith

pub normalize_content-with_crlf :
    (s : Str) → has_byte cr s ≡ false → normalize_content (with_crlf s) ≡ normalize_content s
unfolding normalize_content is_publishable
normalize_content-with_crlf s h = rw (to_lf-with_crlf s h)
