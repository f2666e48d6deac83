-- ===== src/Flags/Overrides.antt =====
-- The table of overrides in cmd/management/storage/feature_flag_repo.go: writing one and reading it.
use squash_bot.Prelude.{
  ℕ, ◌+◌, ◌≤◌, ◌≡◌, inl, inr, refl, ap, ◌∙◌, Option, none, some, Bool, true, List, [], ◌∷◌, ◌==◌,
  if◌then◌else◌, ℤ, arith, Bool-cases,
}
use squash_bot.Prelude.Int.{eqb_ℤ_iff}
use squash_bot.Prelude.Text.{Text}
use squash_bot.Prelude.Text.Equality.{text_eq→≡, text_eq_refl}
use squash_bot.Flags.{
  Definition, lookup, resolve, FlagRow, is_row, same_group, global_in, group_in, read_flag,
  old_override, delete_override, put_override, set_override,
}

-- The rows with the key and the group: at most one, since the table keeps them unique.
abbrev pub rows_of : List FlagRow → Text → Option ℤ → ℕ
rows_of [] key group = 0
rows_of (r ∷ rs) key group = (if is_row key group r then 1 else 0) + rows_of rs key group

abbrev pub IsUnique : List FlagRow → Type 0
IsUnique rows = (key : Text) (group : Option ℤ) → rows_of rows key group ≤ 1

same_group→≡ : (g h : Option ℤ) → same_group g h ≡ true → g ≡ h
unfolding same_group
same_group→≡ none none e = refl
same_group→≡ (some g) (some h) e = ap (λ x. some x) ((eqb_ℤ_iff g h).0 e)
same_group→≡ none (some h) e = cc
same_group→≡ (some g) none e = cc

is_row→≡ :
    (key : Text) (group : Option ℤ) (r : FlagRow)
    → is_row key group r ≡ true
    → (r.key ≡ key) × (r.group ≡ group)
unfolding is_row
is_row→≡ key group r e =
    (text_eq→≡ r.key key (ground arith), same_group→≡ r.group group (ground arith))

-- A row is of one key and group only.
is_row_other :
    (key k : Text) (group g : Option ℤ) (r : FlagRow)
    → is_row key group r ≡ true
    → is_row k g r ≡ is_row k g (record { key = key; group = group; enabled = true })
unfolding is_row
is_row_other key k group g r e = let (a, b) = is_row→≡ key group r e in cc

-- Writing an override keeps the rows unique.
rows_of-put :
    (rows : List FlagRow) (key k : Text) (group g : Option ℤ) (b : Bool)
    → rows_of (put_override rows key group b) k g ≡ (
        if rows_of rows key group == 0
        then rows_of rows k g
          + (if is_row k g (record { key = key; group = group; enabled = b }) then 1 else 0)
        else rows_of rows k g)
unfolding put_override is_row
rows_of-put [] key k group g b = ground arith
rows_of-put (r ∷ rs) key k group g b = ground (arith, rows_of-put rs key k group g b)

rows_of-delete :
    (rows : List FlagRow) (key k : Text) (group g : Option ℤ)
    → rows_of (delete_override rows key group) k g ≤ rows_of rows k g
unfolding delete_override
rows_of-delete [] key k group g = omega arith
rows_of-delete (r ∷ rs) key k group g = ground (arith, rows_of-delete rs key k group g)

or_seen : Option Bool → Option Bool → Option Bool
or_seen none seen = seen
or_seen (some b) seen = some b

or_seen-none : (o : Option Bool) → or_seen o none ≡ o
unfolding or_seen
or_seen-none none = refl
or_seen-none (some b) = refl

old_none :
    (rows : List FlagRow) (key : Text) (group : Option ℤ)
    → rows_of rows key group ≡ 0
    → old_override rows key group ≡ none
unfolding old_override
old_none [] key group h = refl
old_none (r ∷ rs) key group h = ground (arith, old_none rs key group)

-- Over unique rows the scan of readFlag, which keeps the last row, finds the row there is.
global_in_lem :
    (rows : List FlagRow) (key : Text) (seen : Option Bool)
    → rows_of rows key none ≤ 1
    → global_in rows key seen ≡ or_seen (old_override rows key none) seen
unfolding global_in or_seen old_override
global_in_lem [] key seen h = refl
global_in_lem (r ∷ rs) key seen h = elim (Bool-cases (is_row key none r)) [
  | inl e ↦
      let gone : rows_of rs key none ≡ 0 = ground arith in
      rw (e, global_in, old_override)
        (global_in_lem rs key (some r.enabled) (omega (arith, gone))
          ∙ ap (λ o. or_seen o (some r.enabled)) (old_none rs key none gone))
  | inr e ↦ rw (e, global_in, old_override) (global_in_lem rs key seen (ground arith))
]

group_in_lem :
    (rows : List FlagRow) (key : Text) (g : ℤ) (seen : Option Bool)
    → rows_of rows key (some g) ≤ 1
    → group_in rows key (some g) seen ≡ or_seen (old_override rows key (some g)) seen
unfolding group_in or_seen old_override
group_in_lem [] key g seen h = refl
group_in_lem (r ∷ rs) key g seen h = elim (Bool-cases (is_row key (some g) r)) [
  | inl e ↦
      let gone : rows_of rs key (some g) ≡ 0 = ground arith in
      rw (e, group_in, old_override)
        (group_in_lem rs key g (some r.enabled) (omega (arith, gone))
          ∙ ap (λ o. or_seen o (some r.enabled)) (old_none rs key (some g) gone))
  | inr e ↦ rw (e, group_in, old_override) (group_in_lem rs key g seen (ground arith))
]

-- The override that a reader of a group should find after one was written.
abbrev pub override_after : List FlagRow → Text → Option ℤ → Option Bool → Option ℤ → Option Bool
override_after rows key group e g = if same_group group g then e else old_override rows key g

abbrev new_row : Text → Option ℤ → FlagRow
new_row key group = record { key = key; group = group; enabled = true }

same_row :
    (key : Text) (group g : Option ℤ) (r : FlagRow)
    → is_row key group r ≡ true
    → is_row key g r ≡ same_group group g
same_row key group g r e =
    is_row_other key key group g r e ∙ (unfold is_row in rw (text_eq_refl key) refl)

old_override-delete :
    (rows : List FlagRow) (key : Text) (group g : Option ℤ)
    → old_override (delete_override rows key group) key g ≡ override_after rows key group none g
unfolding old_override delete_override
old_override-delete [] key group g = ground arith
old_override-delete (r ∷ rs) key group g =
    ground (arith, old_override-delete rs key group g, same_row key group g r)

is_row_enabled :
    (key : Text) (g : Option ℤ) (r : FlagRow) (b : Bool)
    → is_row key g (record r { enabled = b }) ≡ is_row key g r
unfolding is_row
is_row_enabled key g r b = refl

old_override-put :
    (rows : List FlagRow) (key : Text) (group g : Option ℤ) (b : Bool)
    → old_override (put_override rows key group b) key g ≡ override_after rows key group (some b) g
unfolding old_override put_override
old_override-put [] key group g b = rw (text_eq_refl key) refl
old_override-put (r ∷ rs) key group g b =
    ground
      (arith, old_override-put rs key group g b, same_row key group g r, is_row_enabled key g r b)

old_override-set :
    (rows : List FlagRow) (key : Text) (group g : Option ℤ) (e : Option Bool)
    → old_override (set_override rows key group e) key g ≡ override_after rows key group e g
unfolding set_override
old_override-set rows key group g none = old_override-delete rows key group g
old_override-set rows key group g (some b) = old_override-put rows key group g b

-- Writing an override keeps the rows unique.
pub set_override-IsUnique :
    (rows : List FlagRow) (key : Text) (group : Option ℤ) (e : Option Bool)
    → IsUnique rows
    → IsUnique (set_override rows key group e)
unfolding set_override
set_override-IsUnique rows key group none h k g =
    omega (arith, rows_of-delete rows key k group g, h k g)
set_override-IsUnique rows key group (some b) h k g =
    let fresh : FlagRow = record { key = key; group = group; enabled = b } in
    elim (Bool-cases (is_row k g fresh)) [
      | inl e ↦
          let (a, c) = is_row→≡ k g fresh e in
          let same : rows_of rows key group ≡ rows_of rows k g = cc in
          ground (arith, rows_of-put rows key k group g b, h k g, same)
      | inr e ↦ ground (arith, rows_of-put rows key k group g b, h k g)
    ]

-- After an override was written, a reader of any group finds it if it is of that group or global,
-- and otherwise what was there before, and the flag resolves to these.
pub read_flag-set_override :
    (rows : List FlagRow) (key : Text) (d : Definition) (group : Option ℤ) (e : Option Bool) (g : ℤ)
    → IsUnique rows
    → lookup key ≡ some d
    → read_flag (set_override rows key group e) key (some g)
      ≡ some (
          resolve d
            (override_after rows key group e none)
            (override_after rows key group e (some g)))
unfolding read_flag
read_flag-set_override rows key d group e g h l =
    let u = set_override-IsUnique rows key group e h in
    rw
      (
        l,
        read_flag,
        global_in_lem (set_override rows key group e) key none (u key none),
        group_in_lem (set_override rows key group e) key g none (u key (some g)),
      )
      (rw
        (
          or_seen-none (old_override (set_override rows key group e) key none),
          or_seen-none (old_override (set_override rows key group e) key (some g)),
          old_override-set rows key group none e,
          old_override-set rows key group (some g) e,
        )
        refl)
