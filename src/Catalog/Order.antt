-- ===== src/Catalog/Order.antt =====
-- The matches of a query in the order of their references and versions.
use feather_mesh.Prelude.{
  suc, ◌≡◌, refl, sym, ap, ◌∙◌, Bool, true, false, ◌&&◌, List, [], ◌∷◌, ◌++◌, arith, Text, text_eq,
  text_eq_refl, text_eq_iff, text_less_irrefl, text_less_trans, text_less-total, All, length,
  filter, Bool-cases, inl, inr,
}
use mathlib.Core.List.{Perm}
use mathlib.Core.List.Perm
use feather_mesh.Catalog.{CatalogEntry, key_less, entry_less, insert_entry, sort_entries}
use feather_mesh.Catalog.Query.{key_of}

abbrev pub Key : Type 0
Key = Text × Text

pub key_less_irrefl : (a : Key) → key_less a a ≡ false
unfolding key_less
key_less_irrefl (r, v) = rw (text_less_irrefl r, text_less_irrefl v, text_eq_refl r) refl

key_less_trans : (a b c : Key) → key_less a b ≡ true → key_less b c ≡ true → key_less a c ≡ true
unfolding key_less
key_less_trans (r, v) (s, w) (t, u) h k = ground (
  arith,
  text_less_trans r s t,
  text_less_trans v w u,
  text_eq_iff r s,
  text_eq_iff s t,
  text_eq_iff r t,
)

abbrev pub same_key : Key → Key → Bool
same_key a b = text_eq a.0 b.0 && text_eq a.1 b.1

key_less-total : (a b : Key) → same_key a b ≡ false → key_less a b ≡ false → key_less b a ≡ true
unfolding key_less
key_less-total (r, v) (s, w) h k =
    ground (arith, text_less-total r s, text_less-total v w, text_eq_iff r s, text_eq_iff s r)

same_key-sym : (a b : Key) → same_key a b ≡ false → same_key b a ≡ false
same_key-sym (r, v) (s, w) h =
    ground (arith, text_eq_iff r s, text_eq_iff s r, text_eq_iff v w, text_eq_iff w v)

entry_less-key :
    (a b : CatalogEntry)
    → same_key (key_of a) (key_of b) ≡ false
    → entry_less a b ≡ key_less (key_of a) (key_of b)
unfolding entry_less
entry_less-key a b h = ground (arith, h)

-- Each entry is before all that follow it.
abbrev pub Ascending : List CatalogEntry → Type 0
Ascending [] = Unit
Ascending (x ∷ xs) = All (λ y. key_less (key_of x) (key_of y) ≡ true) xs × Ascending xs

-- No two entries have the same reference and version.
abbrev pub AreDistinct : List CatalogEntry → Type 0
AreDistinct [] = Unit
AreDistinct (x ∷ xs) = All (λ y. same_key (key_of x) (key_of y) ≡ false) xs × AreDistinct xs

All-mono :
    {A : Type 0} (P Q : A → Type 0) (xs : List A) → ((x : A) → P x → Q x) → All P xs → All Q xs
All-mono P Q [] f h = tt
All-mono P Q (x ∷ xs) f h = (f x h.0, All-mono P Q xs f h.1)

All-insert_entry :
    (P : CatalogEntry → Type 0) (e : CatalogEntry) (xs : List CatalogEntry)
    → P e
    → All P xs
    → All P (insert_entry e xs)
unfolding insert_entry
All-insert_entry P e [] p h = (p, tt)
All-insert_entry P e (x ∷ xs) p h = elim (Bool-cases (entry_less x e)) [
  | inl less ↦ rw less (h.0, All-insert_entry P e xs p h.1)
  | inr more ↦ rw more (p, h)
]

pub All-sort_entries :
    (P : CatalogEntry → Type 0) (xs : List CatalogEntry) → All P xs → All P (sort_entries xs)
unfolding sort_entries
All-sort_entries P [] h = tt
All-sort_entries P (x ∷ xs) h =
    All-insert_entry P x (sort_entries xs) h.0 (All-sort_entries P xs h.1)

insert_entry-Ascending :
    (e : CatalogEntry) (xs : List CatalogEntry)
    → All (λ y. same_key (key_of e) (key_of y) ≡ false) xs
    → Ascending xs
    → Ascending (insert_entry e xs)
unfolding insert_entry
insert_entry-Ascending e [] d a = (tt, tt)
insert_entry-Ascending e (x ∷ xs) d a =
    let other = same_key-sym (key_of e) (key_of x) d.0 in
    let by_key = entry_less-key x e other in
    elim (Bool-cases (entry_less x e)) [
      | inl less ↦ rw less (
        All-insert_entry (λ y. key_less (key_of x) (key_of y) ≡ true) e xs (sym by_key ∙ less) a.0,
        insert_entry-Ascending e xs d.1 a.1,
      )
      | inr more ↦
          let before = key_less-total (key_of x) (key_of e) other (sym by_key ∙ more) in
          rw more (
            (
              before,
              All-mono (λ y. key_less (key_of x) (key_of y) ≡ true)
                  (λ y. key_less (key_of e) (key_of y) ≡ true) xs
                  (λ y h. key_less_trans (key_of e) (key_of x) (key_of y) before h) a.0,
            ),
            a,
          )
    ]

pub sort_entries-Ascending : (xs : List CatalogEntry) → AreDistinct xs → Ascending (sort_entries xs)
unfolding sort_entries
sort_entries-Ascending [] d = tt
sort_entries-Ascending (x ∷ xs) d =
    insert_entry-Ascending x (sort_entries xs)
      (All-sort_entries (λ y. same_key (key_of x) (key_of y) ≡ false) xs d.0)
      (sort_entries-Ascending xs d.1)

length-insert_entry :
    (e : CatalogEntry) (xs : List CatalogEntry) → length (insert_entry e xs) ≡ suc (length xs)
unfolding insert_entry
length-insert_entry e [] = refl
length-insert_entry e (x ∷ xs) = elim (Bool-cases (entry_less x e)) [
  | inl less ↦ rw less (ap suc (length-insert_entry e xs))
  | inr more ↦ rw more refl
]

pub length-sort_entries : (xs : List CatalogEntry) → length (sort_entries xs) ≡ length xs
unfolding sort_entries
length-sort_entries [] = refl
length-sort_entries (x ∷ xs) =
    length-insert_entry x (sort_entries xs) ∙ ap suc (length-sort_entries xs)

insert_entry-perm : (e : CatalogEntry) (xs : List CatalogEntry) → Perm (insert_entry e xs) (e ∷ xs)
unfolding insert_entry
insert_entry-perm e [] = Perm.refl (e ∷ [])
insert_entry-perm e (x ∷ xs) = elim (Bool-cases (entry_less x e)) [
  | inl less ↦ rw less (Perm.trans (Perm.cons x (insert_entry-perm e xs)) (Perm.swap e x xs))
  | inr more ↦ rw more (Perm.refl (e ∷ x ∷ xs))
]

pub sort_entries-perm : (xs : List CatalogEntry) → Perm (sort_entries xs) xs
unfolding sort_entries
sort_entries-perm [] = Perm.refl []
sort_entries-perm (x ∷ xs) =
    Perm.trans (insert_entry-perm x (sort_entries xs)) (Perm.cons x (sort_entries-perm xs))

All-middle :
    {A : Type 0} (P : A → Type 0) (xs : List A) (y : A) (ys : List A) → All P (xs ++ y ∷ ys) → P y
All-middle P [] y ys h = h.0
All-middle P (x ∷ xs) y ys h = All-middle P xs y ys h.1

filter-All : {A : Type 0} (p : A → Bool) (xs : List A) → All (λ x. p x ≡ true) xs → filter p xs ≡ xs
filter-All p [] h = refl
filter-All p (x ∷ xs) h = rw (h.0, filter-All p xs h.1) refl

key_less-asym : (a b : Key) → key_less a b ≡ true → key_less b a ≡ false
key_less-asym a b h = elim (Bool-cases (key_less b a)) [
  | inl k ↦ cc (key_less_trans a b a h k, key_less_irrefl a)
  | inr k ↦ k
]

-- What is after an entry of an ascending list is the rest of the list.
pub filter-after :
    (done : List CatalogEntry) (e : CatalogEntry) (rest : List CatalogEntry)
    → Ascending (done ++ e ∷ rest)
    → filter (λ y. key_less (key_of e) (key_of y)) (done ++ e ∷ rest) ≡ rest
filter-after [] e rest a = rw (key_less_irrefl (key_of e)) (filter-All _ rest a.0)
filter-after (d ∷ done) e rest a =
    let before = All-middle (λ y. key_less (key_of d) (key_of y) ≡ true) done e rest a.0 in
    rw (key_less-asym (key_of d) (key_of e) before) (filter-after done e rest a.1)
