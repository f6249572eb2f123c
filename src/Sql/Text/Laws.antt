-- ===== src/Sql/Text/Laws.antt =====
-- Texts that trimming and collapsing leave alone, and texts that end in white space.
use mathlib.Core.List.{reverse, reverse-append, reverse-reverse}
use postgres_mapepire_proxy.Prelude.{
  ℕ, ◌≡◌, ◌≢◌, refl, sym, ap, ◌∙◌, [], ◌∷◌, ◌++◌, leb, ◌==◌, Bool, true, false, not, some, ◌&&◌,
  Text, every, arith, Bool-cases, inl, inr,
}
use postgres_mapepire_proxy.Sql.Text.{
  is_space, trim_start, trim_end, trim, cut_semicolon, collapse_from, keyword, spaces, lower,
}

pub trim_start_other : (c : ℕ) (s : Text) → is_space c ≡ false → trim_start (c ∷ s) ≡ c ∷ s
unfolding trim_start
trim_start_other c s h = rw h

reverse-snoc : (s : Text) (z : ℕ) → reverse (s ++ z ∷ []) ≡ z ∷ reverse s
reverse-snoc s z = reverse-append s (z ∷ [])

trim_end_self : (s : Text) (z : ℕ) → is_space z ≡ false → trim_end (s ++ z ∷ []) ≡ s ++ z ∷ []
unfolding trim_end
trim_end_self s z h = rw (reverse-snoc s z) (
    rw (trim_start_other z (reverse s) h)
      (ap reverse (sym (reverse-snoc s z)) ∙ reverse-reverse (s ++ z ∷ [])))

-- A text that neither begins nor ends in white space is trimmed already.
pub trim_self :
    (a : ℕ) (s : Text) (z : ℕ)
    → is_space a ≡ false
    → is_space z ≡ false
    → trim (a ∷ (s ++ z ∷ [])) ≡ a ∷ (s ++ z ∷ [])
unfolding trim
trim_self a s z ha hz = rw (trim_start_other a (s ++ z ∷ []) ha) (trim_end_self (a ∷ s) z hz)

pub cut_semicolon_self :
    (s : Text) (z : ℕ)
    → is_space z ≡ false
    → (z == b';') ≡ false
    → cut_semicolon (s ++ z ∷ []) ≡ s ++ z ∷ []
unfolding cut_semicolon
cut_semicolon_self s z hz h = rw (reverse-snoc s z) (rw (trim_start_other z (reverse s) hz) (rw h))

-- Without white space there is nothing to collapse.
pub collapse_from_self :
    (after : Bool) (s : Text) → every (λ c. not (is_space c)) s ≡ true → collapse_from after s ≡ s
unfolding collapse_from
collapse_from_self after [] h = refl
collapse_from_self after (c ∷ s) h = ground (arith, collapse_from_self (is_space c) s)

-- Nothing, or white space at the end.
unfoldable pub last_space : Text → Bool
last_space [] = true
last_space (c ∷ []) = is_space c
last_space (c ∷ d ∷ s) = last_space (d ∷ s)

-- A keyword takes no white space.
pub keyword-last_space :
    (ks s : Text) {rest : Text}
    → every (λ k. leb 97 k && leb k 122) ks ≡ true
    → last_space s ≡ true
    → keyword ks s ≡ some rest
    → last_space rest ≡ true
unfolding keyword last_space
keyword-last_space [] s w l e = ground arith
keyword-last_space (k ∷ ks) [] w l e = cc
keyword-last_space (k ∷ ks) (c ∷ []) w l e = unfold is_space lower in ground arith
keyword-last_space (k ∷ ks) (c ∷ d ∷ s) {rest} w l e = elim (Bool-cases (lower c == k)) [
  | inl same ↦ keyword-last_space ks (d ∷ s) {rest = rest} (ground arith) l (ground arith)
  | inr other ↦ ground arith
]

trim_start-last_space : (s : Text) → last_space s ≡ true → last_space (trim_start s) ≡ true
unfolding trim_start last_space
trim_start-last_space [] l = refl
trim_start-last_space (c ∷ []) l = ground arith
trim_start-last_space (c ∷ d ∷ s) l = ground (arith, trim_start-last_space (d ∷ s) l)

pub spaces-last_space :
    (s : Text) {rest : Text} → last_space s ≡ true → spaces s ≡ some rest → last_space rest ≡ true
unfolding spaces last_space
spaces-last_space [] l e = cc
spaces-last_space (c ∷ []) l e = unfold trim_start in ground arith
spaces-last_space (c ∷ d ∷ s) l e = ground (arith, trim_start-last_space (d ∷ s) l)

last_space_cons : (x : ℕ) (r : Text) → r ≢ [] → last_space r ≡ true → last_space (x ∷ r) ≡ true
unfolding last_space
last_space_cons x [] n l = absurd (n refl)
last_space_cons x (y ∷ r) n l = l

last_space_blank : (r : Text) → last_space r ≡ true → last_space (32 ∷ r) ≡ true
unfolding last_space
last_space_blank [] l = unfold is_space in refl
last_space_blank (y ∷ r) l = l

collapse_from-ne-nil : (d : ℕ) (s : Text) → collapse_from false (d ∷ s) ≢ []
unfolding collapse_from
collapse_from-ne-nil d s e = ground arith

pub last_space_tail : (c : ℕ) (s : Text) → last_space (c ∷ s) ≡ true → last_space s ≡ true
unfolding last_space
last_space_tail c [] l = refl
last_space_tail c (d ∷ s) l = l

collapse_step :
    (after : Bool) (c : ℕ) (s : Text) (b : Bool)
    → is_space c ≡ b
    → last_space (c ∷ s) ≡ true
    → last_space (collapse_from b s) ≡ true
    → last_space (collapse_from after (c ∷ s)) ≡ true
unfolding collapse_from
collapse_step after c s true e l h = ground (arith, last_space_blank (collapse_from true s) h)
collapse_step after c [] false e l h = unfold last_space in ground arith
collapse_step after c (d ∷ s) false e l h = rw e (last_space_cons c _ (collapse_from-ne-nil d s) h)

-- A text that ends in white space does so when its white space is collapsed.
pub collapse_from-last_space :
    (after : Bool) (s : Text) → last_space s ≡ true → last_space (collapse_from after s) ≡ true
collapse_from-last_space after [] l = unfold last_space collapse_from in refl
collapse_from-last_space after (c ∷ s) l =
    collapse_step after c s (is_space c) refl l
      (collapse_from-last_space (is_space c) s (last_space_tail c s l))

pub last_space_end : (s : Text) → last_space (s ++ 32 ∷ []) ≡ true
unfolding last_space
last_space_end [] = unfold is_space in refl
last_space_end (c ∷ []) = unfold is_space in refl
last_space_end (c ∷ d ∷ s) = last_space_end (d ∷ s)

-- One semicolon at the end is cut, and what stands before it is left as it is.
pub cut_semicolon_one : (s : Text) → cut_semicolon (s ++ b';' ∷ []) ≡ s
unfolding cut_semicolon
cut_semicolon_one s =
    rw (reverse-snoc s b';') (rw (trim_start_other b';' (reverse s) semicolon) (reverse-reverse s))
  where
    semicolon : is_space b';' ≡ false
    semicolon = unfold is_space in refl
