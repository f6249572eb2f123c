-- ===== src/Sql/Savepoint/Laws.antt =====
-- The savepoint commands: what the proxy sends for a release or a rollback is read back, and a
-- semicolon behind white space hides a command.
use postgres_mapepire_proxy.Prelude.{
  ℕ, ◌≡◌, refl, sym, ap, ◌∙◌, [], ◌∷◌, ◌++◌, leb, true, false, not, Option, none, some, ◌&&◌, Text,
  every, arith, inl, inr, append_assoc, codes, Option-cases,
}
use postgres_mapepire_proxy.Sql.Text.{
  is_space, trim_start, trim, cut_semicolon, collapse_from, collapse, keyword, spaces, lower, ◌>>=◌,
  double,
}
use postgres_mapepire_proxy.Sql.Text.Laws.{
  last_space, last_space_tail, keyword-last_space, spaces-last_space, collapse_from-last_space,
  trim_self, cut_semicolon_self, cut_semicolon_one, last_space_end, collapse_from_self,
}
use postgres_mapepire_proxy.Sql.Identifier.{
  is_identifier, ends_quoted, quote_identifier, is_word_part,
}
use postgres_mapepire_proxy.Sql.Identifier.RoundTrip.{decode-quote}
use postgres_mapepire_proxy.Sql.Savepoint.{
  Action, savepoint, release, rollback_to, identifier, named, optional_word, match_savepoint,
  parse_savepoint_command, translate_savepoint,
}

ends_quoted-last_space : (s : Text) → last_space s ≡ true → ends_quoted s ≡ false
unfolding ends_quoted
ends_quoted-last_space [] l = refl
ends_quoted-last_space (c ∷ []) l = unfold last_space is_space in ground arith
ends_quoted-last_space (c ∷ d ∷ s) l = ground (
  arith,
  ends_quoted-last_space s (last_space_tail d s (last_space_tail c (d ∷ s) l)),
  ends_quoted-last_space (d ∷ s) (last_space_tail c (d ∷ s) l),
)

every-last_space :
    (c : ℕ) (s : Text) → last_space (c ∷ s) ≡ true → every is_word_part (c ∷ s) ≡ false
every-last_space c [] l = unfold last_space is_space in ground arith
every-last_space c (d ∷ s) l = ground (arith, every-last_space d s (last_space_tail c (d ∷ s) l))

is_identifier-last_space : (s : Text) → last_space s ≡ true → is_identifier s ≡ false
unfolding is_identifier
is_identifier-last_space [] l = refl
is_identifier-last_space (c ∷ []) l = unfold ends_quoted last_space is_space in ground arith
is_identifier-last_space (c ∷ d ∷ s) l = ground (
  arith,
  ends_quoted-last_space (d ∷ s) (last_space_tail c (d ∷ s) l),
  every-last_space d s (last_space_tail c (d ∷ s) l),
)

named-last_space : (a : Action) (s : Text) → last_space s ≡ true → named a s ≡ none
unfolding named identifier
named-last_space a s l = elim (Option-cases (spaces s)) [
  | inl e ↦ rw e
  | inr (t, e) ↦ rw e (rw (is_identifier-last_space t (spaces-last_space s l e)))
]

-- Behind a keyword or white space the same holds of the rest.
behind_keyword :
    {A : Type 0} (ks s : Text) (f : Text → Option A)
    → every (λ k. leb 97 k && leb k 122) ks ≡ true
    → last_space s ≡ true
    → ((rest : Text) → last_space rest ≡ true → f rest ≡ none)
    → (keyword ks s >>= f) ≡ none
behind_keyword ks s f w l h = elim (Option-cases (keyword ks s)) [
  | inl e ↦ rw e
  | inr (t, e) ↦ rw e (h t (keyword-last_space ks s w l e))
]

behind_spaces :
    {A : Type 0} (s : Text) (f : Text → Option A)
    → last_space s ≡ true
    → ((rest : Text) → last_space rest ≡ true → f rest ≡ none)
    → (spaces s >>= f) ≡ none
behind_spaces s f l h = elim (Option-cases (spaces s)) [
  | inl e ↦ rw e
  | inr (t, e) ↦ rw e (h t (spaces-last_space s l e))
]

optional_word-last_space : (a : Action) (s : Text) → last_space s ≡ true → optional_word a s ≡ none
unfolding optional_word
optional_word-last_space a s l =
    rw
      (behind_spaces s (λ rest. keyword (codes "savepoint") rest >>= named a) l
        (λ rest l'. behind_keyword (codes "savepoint") rest (named a) refl l' (named-last_space a)))
      (named-last_space a s l)

match_savepoint-last_space : (s : Text) → last_space s ≡ true → match_savepoint s ≡ none
unfolding match_savepoint
match_savepoint-last_space s l =
    rw
      (
        behind_keyword (codes "savepoint") s (named savepoint) refl l (named-last_space savepoint),
        behind_keyword (codes "release") s (optional_word release) refl l
            (optional_word-last_space release),
      )
      (behind_keyword (codes "rollback") s
        (λ rest.
          spaces rest >>= λ behind. keyword (codes "to") behind >>= optional_word rollback_to)
        refl l
        (λ rest l1.
          behind_spaces rest (λ behind. keyword (codes "to") behind >>= optional_word rollback_to)
            l1
            (λ behind l2.
              behind_keyword (codes "to") behind (optional_word rollback_to) refl l2
                (optional_word-last_space rollback_to))))

-- No text whose semicolon stands behind a blank is taken for a savepoint command, whatever the
-- command is: the blank stays when the semicolon is cut. The text begins with no white space.
pub parse_savepoint_spaced :
    (c : ℕ) (s : Text)
    → is_space c ≡ false
    → parse_savepoint_command (c ∷ (s ++ 32 ∷ b';' ∷ [])) ≡ none
unfolding parse_savepoint_command
parse_savepoint_spaced c s h = rw (← append_assoc s (32 ∷ []) (b';' ∷ [])) (
    rw (trim_self c (s ++ 32 ∷ []) b';' h (unfold is_space in refl)) (
      rw (cut_semicolon_one (c ∷ (s ++ 32 ∷ []))) (
        match_savepoint-last_space _ (
          unfold collapse in
          collapse_from-last_space false (c ∷ (s ++ 32 ∷ [])) (last_space_end (c ∷ s))))))

every-quote :
    (name : Text)
    → every (λ c. not (is_space c)) name ≡ true
    → every (λ c. not (is_space c)) (double b'"' name ++ b'"' ∷ []) ≡ true
unfolding double
every-quote [] h = unfold is_space in refl
every-quote (c ∷ name) h = ground (arith, every-quote name (ground arith), quote_mark)
  where
    quote_mark : is_space b'"' ≡ false
    quote_mark = unfold is_space in refl

-- A text of the form that the proxy sends is compact already.
compact_self :
    (a : ℕ) (front name : Text)
    → is_space a ≡ false
    → collapse_from false (a ∷ (front ++ quote_identifier name))
      ≡ a ∷ (front ++ quote_identifier name)
    → collapse (cut_semicolon (trim (a ∷ (front ++ quote_identifier name))))
      ≡ a ∷ (front ++ quote_identifier name)
unfolding collapse quote_identifier
compact_self a front name h e =
    let s = front ++ b'"' ∷ double b'"' name in
    let same : a ∷ (front ++ quote_identifier name) ≡ (a ∷ s) ++ b'"' ∷ [] =
      ap (◌∷◌ a) (sym (append_assoc front (b'"' ∷ double b'"' name) (b'"' ∷ []))) in
    ap (λ t. collapse (cut_semicolon (trim t))) same
    ∙ ap (λ t. collapse (cut_semicolon t)) (trim_self a s b'"' h (unfold is_space in refl))
    ∙ ap collapse (cut_semicolon_self (a ∷ s) b'"' (unfold is_space in refl) refl)
    ∙ ap collapse (sym same)
    ∙ e

named-quote :
    (a : Action) (name : Text)
    → named a (32 ∷ quote_identifier name) ≡ some (record { action = a; name = name })
unfolding named
named-quote a name =
    rw (spaces-quote name)
      (unfold identifier in rw (decode-quote name).0 (rw (decode-quote name).1))
  where
    spaces-quote : (n : Text) → spaces (32 ∷ quote_identifier n) ≡ some (quote_identifier n)
    spaces-quote n = unfold spaces is_space trim_start quote_identifier in refl

match_release :
    (name : Text)
    → match_savepoint (codes "RELEASE SAVEPOINT " ++ quote_identifier name)
      ≡ some (record { action = release; name = name })
unfolding match_savepoint optional_word keyword lower spaces trim_start is_space
match_release name = rw (named-quote release name)

match_rollback_to :
    (name : Text)
    → match_savepoint (codes "ROLLBACK TO SAVEPOINT " ++ quote_identifier name)
      ≡ some (record { action = rollback_to; name = name })
unfolding match_savepoint optional_word keyword lower spaces trim_start is_space
match_rollback_to name = rw (named-quote rollback_to name)

collapse-quote :
    (name : Text)
    → every (λ c. not (is_space c)) name ≡ true
    → collapse_from true (quote_identifier name) ≡ quote_identifier name
unfolding quote_identifier
collapse-quote name h =
    collapse_from_self true (b'"' ∷ (double b'"' name ++ b'"' ∷ [])) (whole (every-quote name h))
  where
    whole :
        every (λ c. not (is_space c)) (double b'"' name ++ b'"' ∷ []) ≡ true
        → every (λ c. not (is_space c)) (b'"' ∷ (double b'"' name ++ b'"' ∷ [])) ≡ true
    whole e = unfold is_space in e

-- What the proxy sends to Db2 for a release or a rollback is itself read as the same command, for
-- every name with no white space, whatever quotes it holds.
pub parse-translate :
    (name : Text)
    → every (λ c. not (is_space c)) name ≡ true
    → (parse_savepoint_command (translate_savepoint (record { action = release; name = name }))
        ≡ some (record { action = release; name = name }))
      × (parse_savepoint_command
            (translate_savepoint (record { action = rollback_to; name = name }))
          ≡ some (record { action = rollback_to; name = name }))
unfolding parse_savepoint_command translate_savepoint
parse-translate name h = (
  rw
      (compact_self b'R' (codes "ELEASE SAVEPOINT ") name (unfold is_space in refl)
        (unfold collapse_from is_space in rw (collapse-quote name h)))
      (match_release name),
  rw
      (compact_self b'R' (codes "OLLBACK TO SAVEPOINT ") name (unfold is_space in refl)
        (unfold collapse_from is_space in rw (collapse-quote name h)))
      (match_rollback_to name),
)
