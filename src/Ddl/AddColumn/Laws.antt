-- ===== src/Ddl/AddColumn/Laws.antt =====
-- Where a column is added.
use postgres_mapepire_proxy.Prelude.{
  List, [], ◌∷◌, ◌++◌, Bool, true, not, Text, every, ◌≡◌, refl, ap, inl, inr, Bool-cases,
}
use postgres_mapepire_proxy.Ddl.CreateTable.{is_constraint}
use postgres_mapepire_proxy.Ddl.AddColumn.{insert_column}

-- A constraint, or nothing, at the front.
abbrev pub ends_columns : List Text → Bool
ends_columns [] = true
ends_columns (d ∷ ds) = is_constraint d

-- The added column stands behind all columns in front of the first constraint, and every definition is
-- kept in its order.
pub insert_column_lem :
    (column : Text) (ds : List Text)
    → (columns : List Text) × (others : List Text) × (ds ≡ columns ++ others)
      × (insert_column column ds ≡ columns ++ column ∷ others)
      × (every (λ d. not (is_constraint d)) columns ≡ true)
      × (ends_columns others ≡ true)
unfolding insert_column
insert_column_lem column [] = ([], [], refl, refl, refl, refl)
insert_column_lem column (d ∷ ds) = elim (Bool-cases (is_constraint d)) [
  | inl constraint ↦ ([], d ∷ ds, refl, simp constraint refl, refl, constraint)
  | inr other ↦
      let (columns, others, e, f, g, h) = insert_column_lem column ds in
      (d ∷ columns, others, ap (◌∷◌ d) e, simp other (ap (◌∷◌ d) f), simp other g, h)
]
