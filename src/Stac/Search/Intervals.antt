-- ===== src/Stac/Search/Intervals.antt =====
-- `matches_datetime` on closed intervals.
use feather_mesh.Prelude.{
  ℕ, ◌≤◌, ◌≡◌, refl, sym, subst, ◌∙◌, ◌↔◌, true, false, Option, some, ◌∷◌, ◌++◌, arith, Text,
  text_eq, ltb, leb, Bool-cases, inl, inr, if◌then◌else◌, ◌&&◌,
}
use feather_mesh.Std.Str.{contains_char}
use feather_mesh.Std.Str.Laws.{split_once-append}
use feather_mesh.Stac.Search.{bound, dots, matches_interval, matches_datetime}

meets :
    (start end lower upper : ℕ)
    → start ≤ end
    → lower ≤ upper
    → ((if ltb upper lower then false else (leb lower end && leb start upper)) ≡ true)
      ↔ ((t : ℕ) × (start ≤ t) × (t ≤ end) × (lower ≤ t) × (t ≤ upper))
meets start end lower upper h k = (
  λ m. elim (Bool-cases (leb start lower)) [
    | inl e ↦ (lower, ground arith, ground arith, ground arith, ground arith)
    | inr e ↦ (start, ground arith, ground arith, ground arith, ground arith)
  ],
  λ s. let (t, a, b, c, d) = s in ground arith,
)

matches_datetime-split :
    (parse : Text → Option ℕ) (start end : ℕ) (s e : Text)
    → contains_char b'/' s ≡ false
    → matches_datetime parse start end (s ++ b'/' ∷ e) ≡ matches_interval parse start end s e
unfolding matches_datetime
matches_datetime-split parse start end s e slash =
    rw (matches_datetime, split_once-append b'/' s e slash) refl

matches_interval-times :
    (parse : Text → Option ℕ) (start end : ℕ) (s e : Text) (lower upper : ℕ)
    → text_eq s dots ≡ false
    → text_eq e dots ≡ false
    → parse s ≡ some lower
    → parse e ≡ some upper
    → matches_interval parse start end s e
      ≡ (if ltb upper lower then false else (leb lower end && leb start upper))
unfolding matches_interval bound
matches_interval-times parse start end s e lower upper ds de p q =
    rw (matches_interval, ds, de, p, q) refl

-- A query `lower/upper` of two times, in order, selects an item exactly if some time lies in both the
-- item's interval and the query's, both closed.
pub matches_datetime-closed :
    (parse : Text → Option ℕ) (start end : ℕ) (query_start query_end : Text) (lower upper : ℕ)
    → contains_char b'/' query_start ≡ false
    → text_eq query_start dots ≡ false
    → text_eq query_end dots ≡ false
    → parse query_start ≡ some lower
    → parse query_end ≡ some upper
    → start ≤ end
    → lower ≤ upper
    → (matches_datetime parse start end (query_start ++ b'/' ∷ query_end) ≡ true)
      ↔ ((t : ℕ) × (start ≤ t) × (t ≤ end) × (lower ≤ t) × (t ≤ upper))
matches_datetime-closed parse start end s e lower upper slash ds de p q item order =
    subst (λ b. (b ≡ true) ↔ ((t : ℕ) × (start ≤ t) × (t ≤ end) × (lower ≤ t) × (t ≤ upper)))
      (sym (
        matches_datetime-split parse start end s e slash
        ∙ matches_interval-times parse start end s e lower upper ds de p q))
      (meets start end lower upper item order)
