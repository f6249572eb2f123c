-- ===== src/Ddl/ColumnTypes/Replaced.antt =====
-- replaceColumnType replaces the text of a type, and nothing else.
use postgres_mapepire_proxy.Prelude.{
  ℕ, [], ◌∷◌, ◌++◌, true, false, none, some, Text, length, drop, ◌≡◌, refl, sym, ap, ◌∙◌, subst,
  drop-append, Bool-cases, Option-cases, inl, inr, ◌⊎◌,
}
use postgres_mapepire_proxy.Ddl.ColumnTypes.{
  matched, type_rest, column_rest, normalize_type, equivalent_type, extract_type_prefix,
  type_prefix_source, replace_column_type,
}
use postgres_mapepire_proxy.Ddl.ColumnTypes.Columns.{
  type_rest-IsPattern, column_rest-IsPattern, matched-Ends,
}

-- A definition, and one that is it but for the texts of its types: a name and white space, a text that
-- the patterns take for a type, which another replaces, and what stands behind it.
pub data Retyped : Text → Text → Type 0 where
  unchanged : (d : Text) → Retyped d d
  retypes :
      {d : Text} (lead source tail aligned : Text)
      → Retyped d (lead ++ (source ++ tail))
      → column_rest (lead ++ (source ++ tail)) ≡ some (source ++ tail)
      → type_rest (source ++ tail) ≡ some tail
      → Retyped d (lead ++ aligned ++ tail)

-- Where the definition has a type, it is cut out and `aligned` put in its place.
pub replace_column_type_lem :
    (definition previous aligned rest tail : Text) (c : ℕ) (source : Text)
    → column_rest definition ≡ some rest
    → type_rest rest ≡ some tail
    → matched rest tail ≡ c ∷ source
    → equivalent_type (normalize_type (c ∷ source)) previous ≡ true
    → replace_column_type definition previous aligned ≡ matched definition rest ++ aligned ++ tail
unfolding replace_column_type extract_type_prefix type_prefix_source
replace_column_type_lem definition previous aligned rest tail c source at type here equal =
    let whole : (c ∷ source) ++ tail ≡ rest =
      ap (λ t. t ++ tail) (sym here)
      ∙ matched-Ends rest tail (type_rest-IsPattern rest tail type) in
    rw
      (
        replace_column_type, at, extract_type_prefix, type, here, equal, type_prefix_source, type,
        here,
      )
      (ap (λ t. matched definition rest ++ aligned ++ t)
        (ap (drop (length (c ∷ source))) (sym whole) ∙ drop-append (c ∷ source) tail))

module _ (definition previous aligned : Text) where
  stays_unnamed :
      column_rest definition ≡ none → replace_column_type definition previous aligned ≡ definition
  unfolding replace_column_type
  stays_unnamed e = rw (replace_column_type, e)

  module _ {rest : Text} (at : column_rest definition ≡ some rest) where
    stays_untyped :
        type_rest rest ≡ none → replace_column_type definition previous aligned ≡ definition
    unfolding replace_column_type extract_type_prefix
    stays_untyped e = rw (replace_column_type, at, extract_type_prefix, e)

    stays_other :
        {tail : Text}
        → type_rest rest ≡ some tail
        → equivalent_type (normalize_type (matched rest tail)) previous ≡ false
        → replace_column_type definition previous aligned ≡ definition
    unfolding replace_column_type extract_type_prefix
    stays_other e f = rw (replace_column_type, at, extract_type_prefix, e, f)

    stays_empty :
        {tail : Text}
        → type_rest rest ≡ some tail
        → equivalent_type (normalize_type (matched rest tail)) previous ≡ true
        → matched rest tail ≡ []
        → replace_column_type definition previous aligned ≡ definition
    unfolding replace_column_type extract_type_prefix type_prefix_source
    stays_empty e f g =
        rw (replace_column_type, at, extract_type_prefix, e, f, type_prefix_source, e, g)

pub replace_column_type-Retyped :
    (d definition previous aligned : Text)
    → Retyped d definition
    → Retyped d (replace_column_type definition previous aligned)
replace_column_type-Retyped d definition previous aligned from =
    elim (Option-cases (column_rest definition)) [
      | inl nothing ↦
          subst (Retyped d) (sym (stays_unnamed definition previous aligned nothing)) from
      | inr (rest, at) ↦ elim (Option-cases (type_rest rest)) [
        | inl untyped ↦
            subst (Retyped d) (sym (stays_untyped definition previous aligned at untyped)) from
        | inr (tail, type) ↦
            go (matched rest tail) refl
              (Bool-cases (equivalent_type (normalize_type (matched rest tail)) previous)) at type
      ]
    ]
  where
    go :
        {rest tail : Text} (source : Text)
        → matched rest tail ≡ source
        → (equivalent_type (normalize_type (matched rest tail)) previous ≡ true)
          ⊎ (equivalent_type (normalize_type (matched rest tail)) previous ≡ false)
        → column_rest definition ≡ some rest
        → type_rest rest ≡ some tail
        → Retyped d (replace_column_type definition previous aligned)
    go {rest} {tail} source here (inr other) at type =
        subst (Retyped d) (sym (stays_other definition previous aligned at type other)) from
    go {rest} {tail} [] here (inl equal) at type =
        subst (Retyped d) (sym (stays_empty definition previous aligned at type equal here)) from
    go {rest} {tail} (c ∷ source) here (inl equal) at type =
        let whole : rest ≡ (c ∷ source) ++ tail =
          sym (matched-Ends rest tail (type_rest-IsPattern rest tail type))
          ∙ ap (λ t. t ++ tail) here in
        let all : definition ≡ matched definition rest ++ ((c ∷ source) ++ tail) =
          sym (matched-Ends definition rest (column_rest-IsPattern definition rest at))
          ∙ ap (◌++◌ (matched definition rest)) whole in
        subst (Retyped d)
          (sym (
            replace_column_type_lem definition previous aligned rest tail c source at type here
              (ap (λ t. equivalent_type (normalize_type t) previous) (sym here) ∙ equal)))
          (retypes (matched definition rest) (c ∷ source) tail aligned (subst (Retyped d) all from)
            (ap column_rest (sym all) ∙ at ∙ ap some whole) (ap type_rest (sym whole) ∙ type))
