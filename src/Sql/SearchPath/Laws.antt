-- ===== src/Sql/SearchPath/Laws.antt =====
-- A path of quoted names.
use postgres_mapepire_proxy.Prelude.{
  ℕ, ◌==◌, List, [], ◌∷◌, ◌++◌, Bool, true, false, not, none, some, Text, map, codes, ◌≡◌, refl, ap,
  ◌∙◌, sym, arith, append_assoc, append-nil, Bool-cases, inl, inr,
}
use postgres_mapepire_proxy.Sql.Text.{trim, is_space, double, undouble, keyword, lower}
use postgres_mapepire_proxy.Sql.Text.Laws.{trim_self}
use postgres_mapepire_proxy.Sql.Identifier.{quote_identifier, without_last}
use postgres_mapepire_proxy.Sql.Identifier.RoundTrip.{undouble-double, without_last-append}
use postgres_mapepire_proxy.Sql.Scan.{joined}
use postgres_mapepire_proxy.Sql.SearchPath.{
  push, path_from, split_search_path, is_word, is_temp, ends_with, unquoted, unquote_identifier,
  first_schema, without_token, select_effective_search_path,
}

-- What may stand behind a closing quote: the end, or no quote.
abbrev pub is_free : Text → Bool
is_free [] = true
is_free (c ∷ s) = not (c == b'"')

-- A name with its quotes doubled, the closing quote, and what stands behind it.
abbrev pub closing : Text → Text → Text
closing name rest = double b'"' name ++ b'"' ∷ rest

closing-nonempty : (name rest : Text) → (d : ℕ) × (s : Text) × (closing name rest ≡ d ∷ s)
unfolding double
closing-nonempty [] rest = (b'"', rest, refl)
closing-nonempty (c ∷ name) rest = elim (Bool-cases (c == b'"')) [
  | inl q ↦ (b'"', b'"' ∷ closing name rest, simp q refl)
  | inr q ↦ (c, closing name rest, simp q refl)
]

path_inside :
    (token : Text) (c : ℕ) (s : Text)
    → (c == b'"') ≡ false
    → (d : ℕ) × (r : Text) × (s ≡ d ∷ r)
    → path_from (some b'"') token (c ∷ s) ≡ path_from (some b'"') (token ++ c ∷ []) s
unfolding path_from
path_inside token c s q (d, r, e) = rw e (ground arith)

path_close :
    (token rest : Text)
    → is_free rest ≡ true
    → path_from (some b'"') token (b'"' ∷ rest) ≡ path_from none (token ++ b'"' ∷ []) rest
unfolding path_from
path_close token [] h = refl
path_close token (d ∷ rest) h = ground arith

path_pair :
    (token s : Text)
    → path_from (some b'"') token (b'"' ∷ b'"' ∷ s)
      ≡ path_from (some b'"') (token ++ b'"' ∷ b'"' ∷ []) s
unfolding path_from
path_pair token s = refl

path_quoted :
    (token name rest : Text)
    → is_free rest ≡ true
    → path_from (some b'"') token (closing name rest)
      ≡ path_from none (token ++ closing name []) rest
unfolding double
path_quoted token [] rest h = path_close token rest h
path_quoted token (c ∷ name) rest h = elim (Bool-cases (c == b'"')) [
  | inl q ↦ simp q (
      path_pair token (closing name rest)
      ∙ path_quoted (token ++ b'"' ∷ b'"' ∷ []) name rest h
      ∙ ap (λ t. path_from none t rest) (append_assoc token (b'"' ∷ b'"' ∷ []) (closing name [])))
  | inr q ↦ simp q (
      path_inside token c (closing name rest) q (closing-nonempty name rest)
      ∙ path_quoted (token ++ c ∷ []) name rest h
      ∙ ap (λ t. path_from none t rest) (append_assoc token (c ∷ []) (closing name [])))
]

trim-quote : (name : Text) → trim (quote_identifier name) ≡ quote_identifier name
unfolding quote_identifier
trim-quote name =
    trim_self b'"' (double b'"' name) b'"' (unfold is_space in refl) (unfold is_space in refl)

path_opened : (s : Text) → path_from none [] (b'"' ∷ s) ≡ path_from (some b'"') (b'"' ∷ []) s
unfolding path_from
path_opened s = refl

-- A quoted name at the front of a path becomes the token.
path_name :
    (name rest : Text)
    → is_free rest ≡ true
    → path_from none [] (quote_identifier name ++ rest)
      ≡ path_from none (quote_identifier name) rest
unfolding quote_identifier
path_name name rest h =
    ap (λ t. path_from none [] (b'"' ∷ t)) (append_assoc (double b'"' name) (b'"' ∷ []) rest)
    ∙ path_opened (closing name rest)
    ∙ path_quoted (b'"' ∷ []) name rest h

path_comma :
    (token rest : Text)
    → path_from none token (b',' ∷ rest) ≡ push (trim token) (path_from none [] rest)
unfolding path_from
path_comma token rest = refl

path_end : (token : Text) → path_from none token [] ≡ push (trim token) []
unfolding path_from
path_end token = refl

push-quote :
    (name : Text) (rest : List Text)
    → push (trim (quote_identifier name)) rest ≡ quote_identifier name ∷ rest
push-quote name rest = ap (λ t. push t rest) (trim-quote name) ∙ (unfold quote_identifier in refl)

-- Quoted names with commas between them split into themselves.
split_quoted :
    (name : Text) (names : List Text)
    → split_search_path (joined (map quote_identifier (name ∷ names)))
      ≡ map quote_identifier (name ∷ names)
unfolding split_search_path
split_quoted name [] =
    ap (path_from none []) (sym (append-nil (quote_identifier name)))
    ∙ path_name name [] refl
    ∙ path_end (quote_identifier name)
    ∙ push-quote name []
split_quoted name (next ∷ names) =
    let rest = joined (map quote_identifier (next ∷ names)) in
    path_name name (b',' ∷ rest) refl
    ∙ path_comma (quote_identifier name) rest
    ∙ push-quote name (path_from none [] rest)
    ∙ ap (◌∷◌ (quote_identifier name)) (split_quoted next names)

ends_with-snoc : (q : ℕ) (s : Text) → ends_with q (s ++ q ∷ []) ≡ true
unfolding ends_with
ends_with-snoc q [] = ground arith
ends_with-snoc q (c ∷ []) = ground arith
ends_with-snoc q (c ∷ d ∷ s) = ends_with-snoc q (d ∷ s)

-- What begins with a quote is none of the plain words that stand for no schema.
no_word :
    (s : Text)
    → (is_word (codes "$user") (b'"' ∷ s) ≡ false)
      × (is_word (codes "pg_catalog") (b'"' ∷ s) ≡ false)
      × (is_temp (b'"' ∷ s) ≡ false)
unfolding is_word is_temp keyword lower
no_word s = (refl, refl, refl)

unquoted_quoted :
    (s : Text)
    → is_word (codes "\"$user\"") (b'"' ∷ s) ≡ false
    → ends_with b'"' (b'"' ∷ s) ≡ true
    → unquoted (b'"' ∷ s) ≡ some (undouble b'"' (without_last s))
unfolding unquoted
unquoted_quoted s h e = let (user, catalog, temp) = no_word s in rw (user, h, catalog, temp, e)

unquote-quote :
    (name : Text)
    → is_word (codes "\"$user\"") (quote_identifier name) ≡ false
    → unquote_identifier (quote_identifier name) ≡ some name
unfolding unquote_identifier
unquote-quote name h = ap unquoted (trim-quote name) ∙ go
  where
    go : unquoted (quote_identifier name) ≡ some name
    go =
        unfold quote_identifier in
        unquoted_quoted (double b'"' name ++ b'"' ∷ []) h
          (ends_with-snoc b'"' (b'"' ∷ double b'"' name))
        ∙ ap (λ t. some (undouble b'"' t)) (without_last-append (double b'"' name) b'"')
        ∙ ap some (undouble-double b'"' name)

first_quoted :
    (name : Text) (tokens : List Text)
    → is_word (codes "\"$user\"") (quote_identifier name) ≡ false
    → first_schema (quote_identifier name ∷ tokens) ≡ some (quote_identifier name, name)
unfolding first_schema
first_quoted name tokens h = rw (first_schema, unquote-quote name h)

-- The first of a list of quoted names, whatever quotes, commas and blanks the names hold, is the schema
-- that the path selects, with the case it is written in; the names that are requested are all of the
-- list, and those other than the first are ignored. The first name is not empty and not $user.
pub select-quoted :
    (c : ℕ) (name : Text) (names : List Text) (is_local : Bool)
    → is_word (codes "\"$user\"") (quote_identifier (c ∷ name)) ≡ false
    → let path = map quote_identifier ((c ∷ name) ∷ names) in
      select_effective_search_path (joined path) is_local
      ≡ some (record {
        schema = c ∷ name;
        requested = path;
        ignored = without_token (quote_identifier (c ∷ name)) path;
        is_local = is_local;
        reset = false;
      })
unfolding select_effective_search_path
select-quoted c name names is_local h =
    let split = split_quoted (c ∷ name) names in
    rw (
      select_effective_search_path,
      split,
      first_quoted (c ∷ name) (map quote_identifier names) h,
      split,
    )
