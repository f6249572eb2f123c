-- ===== src/Ddl/References/Laws.antt =====
-- What a rename replaces, and what it leaves alone.
use postgres_mapepire_proxy.Prelude.{
  ℕ, ◌==◌, List, [], ◌∷◌, ◌++◌, ◌≡◌, refl, sym, ap, ◌∙◌, arith, Text, append_assoc, append-nil,
  Bool, true, false, ◌&&◌, every, Bool-cases, inl, inr,
}
use postgres_mapepire_proxy.Sql.Text.{double}
use postgres_mapepire_proxy.Sql.Identifier.{is_word_start}
use postgres_mapepire_proxy.Ddl.Names.{is_name_part}
use postgres_mapepire_proxy.Ddl.References.{
  between, literal, quoted, word, replaced, replace_from, replace_identifier_references,
}
use postgres_mapepire_proxy.Ddl.References.Tokens.{
  Token, string, quoted_name, plain_name, other, written, written_all, renamed, renamed_all,
  starts_without, IsToken, AreTokens,
}

module _ (old new : Text) where
  literal_character :
      (c : ℕ) (s : Text)
      → (c == 39) ≡ false
      → replace_from old new literal (c ∷ s) ≡ c ∷ replace_from old new literal s
  unfolding replace_from
  literal_character c [] h = refl
  literal_character c (d ∷ s) h = ground arith

  literal_end :
      (rest : Text)
      → starts_without (λ c. c == 39) rest ≡ true
      → replace_from old new literal (39 ∷ rest) ≡ 39 ∷ replace_from old new between rest
  unfolding replace_from
  literal_end [] h = refl
  literal_end (d ∷ s) h = ground arith

  literal_pair :
      (s : Text)
      → replace_from old new literal (39 ∷ 39 ∷ s) ≡ 39 ∷ 39 ∷ replace_from old new literal s
  unfolding replace_from
  literal_pair s = refl

  -- A string is kept, up to its end.
  string-kept :
      (s rest : Text)
      → starts_without (λ c. c == 39) rest ≡ true
      → replace_from old new literal (double 39 s ++ 39 ∷ rest)
        ≡ double 39 s ++ 39 ∷ replace_from old new between rest
  unfolding double
  string-kept [] rest h = literal_end rest h
  string-kept (c ∷ s) rest h = elim (Bool-cases (c == 39)) [
    | inl e ↦
        simp e
          (literal_pair (double 39 s ++ 39 ∷ rest) ∙ ap (λ t. 39 ∷ 39 ∷ t) (string-kept s rest h))
    | inr e ↦
        simp e
          (literal_character c (double 39 s ++ 39 ∷ rest) e ∙ ap (◌∷◌ c) (string-kept s rest h))
  ]

  quoted_character :
      (read : Text) (c d : ℕ) (s : Text)
      → (c == b'"') ≡ false
      → replace_from old new (quoted read) (c ∷ d ∷ s)
        ≡ replace_from old new (quoted (read ++ c ∷ [])) (d ∷ s)
  unfolding replace_from
  quoted_character read c d s h = ground arith

  quoted_pair :
      (read s : Text)
      → replace_from old new (quoted read) (b'"' ∷ b'"' ∷ s)
        ≡ replace_from old new (quoted (read ++ b'"' ∷ b'"' ∷ [])) s
  unfolding replace_from
  quoted_pair read s = refl

  quoted_end :
      (read rest : Text)
      → starts_without (λ c. c == b'"') rest ≡ true
      → replace_from old new (quoted read) (b'"' ∷ rest)
        ≡ replaced old new (read ++ b'"' ∷ []) ++ replace_from old new between rest
  unfolding replace_from
  quoted_end read [] h = sym (append-nil (replaced old new (read ++ b'"' ∷ [])))
  quoted_end read (d ∷ s) h = ground arith

  -- Something stands behind each character of a quoted name.
  quoted_inner :
      (read : Text) (c : ℕ) (s rest : Text)
      → (c == b'"') ≡ false
      → replace_from old new (quoted read) (c ∷ (double b'"' s ++ b'"' ∷ rest))
        ≡ replace_from old new (quoted (read ++ c ∷ [])) (double b'"' s ++ b'"' ∷ rest)
  unfolding double
  quoted_inner read c [] rest h = quoted_character read c b'"' rest h
  quoted_inner read c (d ∷ s) rest h = elim (Bool-cases (d == b'"')) [
    | inl e ↦ simp e (quoted_character read c b'"' (b'"' ∷ (double b'"' s ++ b'"' ∷ rest)) h)
    | inr e ↦ simp e (quoted_character read c d (double b'"' s ++ b'"' ∷ rest) h)
  ]

  -- A quoted name is read up to its end, and replaced as a whole.
  quoted-replaced :
      (read s rest : Text)
      → starts_without (λ c. c == b'"') rest ≡ true
      → replace_from old new (quoted read) (double b'"' s ++ b'"' ∷ rest)
        ≡ replaced old new (read ++ (double b'"' s ++ b'"' ∷ []))
          ++ replace_from old new between rest
  unfolding double
  quoted-replaced read [] rest h = quoted_end read rest h
  quoted-replaced read (c ∷ s) rest h = elim (Bool-cases (c == b'"')) [
    | inl e ↦ simp e (
        quoted_pair read (double b'"' s ++ b'"' ∷ rest)
        ∙ quoted-replaced (read ++ b'"' ∷ b'"' ∷ []) s rest h
        ∙ ap (λ t. replaced old new t ++ replace_from old new between rest)
            (append_assoc read (b'"' ∷ b'"' ∷ []) (double b'"' s ++ b'"' ∷ [])))
    | inr e ↦ simp e (
        quoted_inner read c s rest e
        ∙ quoted-replaced (read ++ c ∷ []) s rest h
        ∙ ap (λ t. replaced old new t ++ replace_from old new between rest)
            (append_assoc read (c ∷ []) (double b'"' s ++ b'"' ∷ [])))
  ]

  word_end :
      (read rest : Text)
      → starts_without is_name_part rest ≡ true
      → replace_from old new (word read) rest
        ≡ replaced old new read ++ replace_from old new between rest
  unfolding replace_from
  word_end read [] h = sym (append-nil (replaced old new read))
  word_end read (c ∷ s) h = ground arith

  word_character :
      (read : Text) (c : ℕ) (s : Text)
      → is_name_part c ≡ true
      → replace_from old new (word read) (c ∷ s) ≡ replace_from old new (word (read ++ c ∷ [])) s
  unfolding replace_from
  word_character read c s h = simp h refl

  both : (a b : Bool) → (a && b) ≡ true → (a ≡ true) × (b ≡ true)
  both true b e = (refl, e)
  both false b e = absurd cc

  -- A name is read up to its end, and replaced as a whole.
  name-replaced :
      (read s rest : Text)
      → every is_name_part s ≡ true
      → starts_without is_name_part rest ≡ true
      → replace_from old new (word read) (s ++ rest)
        ≡ replaced old new (read ++ s) ++ replace_from old new between rest
  name-replaced read [] rest h e =
      word_end read rest e
      ∙ ap (λ t. replaced old new t ++ replace_from old new between rest) (sym (append-nil read))
  name-replaced read (c ∷ s) rest h e =
      let (part, parts) = both (is_name_part c) (every is_name_part s) h in
      word_character read c (s ++ rest) part
      ∙ name-replaced (read ++ c ∷ []) s rest parts e
      ∙ ap (λ t. replaced old new t ++ replace_from old new between rest)
          (append_assoc read (c ∷ []) s)

  word_begins :
      (c : ℕ) (s : Text)
      → is_word_start c ≡ true
      → replace_from old new between (c ∷ s) ≡ replace_from old new (word (c ∷ [])) s
  unfolding replace_from
  word_begins c s h = ground arith

  other-kept :
      (c : ℕ) (s : Text)
      → IsToken (other c) s
      → replace_from old new between (c ∷ s) ≡ c ∷ replace_from old new between s
  unfolding replace_from
  other-kept c s (a, b, d) = ground arith

  -- One token, and what stands behind it.
  token-renamed :
      (t : Token) (rest : Text)
      → IsToken t rest
      → replace_from old new between (written t ++ rest)
        ≡ renamed old new t ++ replace_from old new between rest
  unfolding replace_from
  token-renamed (string s) rest h =
      ap (λ t. 39 ∷ replace_from old new literal t) (append_assoc (double 39 s) (39 ∷ []) rest)
      ∙ ap (◌∷◌ 39) (
          string-kept s rest h
          ∙ sym (append_assoc (double 39 s) (39 ∷ []) (replace_from old new between rest)))
  token-renamed (quoted_name s) rest h =
      ap (λ t. replace_from old new (quoted (b'"' ∷ [])) t)
        (append_assoc (double b'"' s) (b'"' ∷ []) rest)
      ∙ quoted-replaced (b'"' ∷ []) s rest h
  token-renamed (plain_name c s) rest (first, parts, e) =
      word_begins c (s ++ rest) first ∙ name-replaced (c ∷ []) s rest parts e
  token-renamed (other c) rest h = other-kept c rest h

  tokens-renamed :
      (ts : List Token)
      → AreTokens ts
      → replace_from old new between (written_all ts) ≡ renamed_all old new ts
  unfolding replace_from
  tokens-renamed [] h = refl
  tokens-renamed (t ∷ ts) (h, hs) =
      token-renamed t (written_all ts) h ∙ ap (◌++◌ (renamed old new t)) (tokens-renamed ts hs)

  pub replace_references-written :
      (ts : List Token)
      → AreTokens ts
      → replace_identifier_references old new (written_all ts) ≡ renamed_all old new ts
  unfolding replace_identifier_references
  replace_references-written ts h = tokens-renamed ts h
