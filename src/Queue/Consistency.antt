-- ===== src/Queue/Consistency.antt =====
-- What the primary key and the unique index of the queue's table promise, and when a change of rows
-- keeps it.
use career_pilot_ai.Prelude.{
  ℕ, ◌≡◌, ◌≢◌, refl, ap, true, inl, inr, [], ◌∷◌, arith, map, All, All-mono, All-In, In, here,
  there, ◌++◌, sym, ◌∙◌, Bool-cases, if◌then◌else◌, ◌==◌, ==_iff,
}
use career_pilot_ai.Queue.{Row, Table, is_live, update_row}
use career_pilot_ai.Queue.Dedup.{Collide, IsUnique}

-- the row keeps its key, and is not brought back to life
abbrev pub Settles : (Row → Row) → Row → Type 0
Settles f row =
    ((f row).dedup_key ≡ row.dedup_key)
    × (is_live (f row).status ≡ true → is_live row.status ≡ true)

not-Collide :
    (f : Row → Row) (a b : Row) → Settles f a → Settles f b → ¬ Collide a b → ¬ Collide (f a) (f b)
not-Collide f a b p q n c = ground arith

pub map-IsUnique :
    (f : Row → Row) (table : Table)
    → All (Settles f) table
    → IsUnique table
    → IsUnique (map f table)
map-IsUnique f [] s u = tt
map-IsUnique f (row ∷ rows) s u = (apart rows s.1 u.0, map-IsUnique f rows s.1 u.1)
  where
    apart :
        (rest : Table)
        → All (Settles f) rest
        → All (λ r. ¬ Collide row r) rest
        → All (λ r. ¬ Collide (f row) r) (map f rest)
    apart [] t a = tt
    apart (r ∷ rest) t a = (not-Collide f row r s.0 t.0 a.0, apart rest t.1 a.1)

update_row-IsUnique :
    (id : ℕ) (f : Row → Row) (table : Table)
    → All (λ r. r.id ≡ id → Settles f r) table
    → IsUnique table
    → IsUnique (update_row id f table)
unfolding update_row
update_row-IsUnique id f table s u = map-IsUnique _ table (settled table s) u
  where
    settled :
        (rows : Table)
        → All (λ r. r.id ≡ id → Settles f r) rows
        → All (Settles (λ r. if r.id == id then f r else r)) rows
    settled [] s = tt
    settled (r ∷ rows) s = elim (Bool-cases (r.id == id)) [
      | inl e ↦ (rw e (s.0 ((==_iff _ _).0 e)), settled rows s.1)
      | inr e ↦ (rw e (refl, λ h. h), settled rows s.1)
    ]

abbrev pub HasDistinctIds : Table → Type 0
HasDistinctIds [] = Unit
HasDistinctIds (row ∷ rows) = All (λ r. r.id ≢ row.id) rows × HasDistinctIds rows

-- What the primary key and the partial unique index promise.
pub record IsConsistent (table : Table) : Type 0 where
  pub ids : HasDistinctIds table
  pub keys : IsUnique table

-- a primary key names one row
pub same_id :
    (row : Row) (table : Table)
    → HasDistinctIds table
    → In row table
    → All (λ r. r.id ≡ row.id → r ≡ row) table
same_id row [] d m = tt
same_id row (r ∷ rows) d (here e) =
    ((λ _. e), All-mono rows (λ x n q. absurd (n (q ∙ ap (λ (y : Row). y.id) (sym e)))) d.0)
same_id row (r ∷ rows) d (there m) =
    ((λ q. absurd (All-In _ d.0 m (sym q))), same_id row rows d.1 m)

pub map-HasDistinctIds :
    (f : Row → Row)
    → ((r : Row) → (f r).id ≡ r.id)
    → (table : Table) → HasDistinctIds table
    → HasDistinctIds (map f table)
map-HasDistinctIds f k [] d = tt
map-HasDistinctIds f k (row ∷ rows) d = (apart rows d.0, map-HasDistinctIds f k rows d.1)
  where
    apart :
        (rest : Table) → All (λ r. r.id ≢ row.id) rest → All (λ r. r.id ≢ (f row).id) (map f rest)
    apart [] a = tt
    apart (r ∷ rest) a = ((λ e. a.0 (sym (k r) ∙ e ∙ k row)), apart rest a.1)

pub update_row-IsConsistent :
    (id : ℕ) (f : Row → Row) (table : Table)
    → ((r : Row) → (f r).id ≡ r.id)
    → All (λ r. r.id ≡ id → Settles f r) table
    → IsConsistent table
    → IsConsistent (update_row id f table)
update_row-IsConsistent id f table k s c = record {
  ids = unfold update_row in map-HasDistinctIds _ (λ r. ground (arith, k r)) table c.ids;
  keys = update_row-IsUnique id f table s c.keys;
}

pub append-HasDistinctIds :
    (row : Row) (table : Table)
    → All (λ r. r.id ≢ row.id) table
    → HasDistinctIds table
    → HasDistinctIds (table ++ row ∷ [])
append-HasDistinctIds row [] f d = (tt, tt)
append-HasDistinctIds row (r ∷ rows) f d = (apart rows d.0, append-HasDistinctIds row rows f.1 d.1)
  where
    apart : (rest : Table) → All (λ x. x.id ≢ r.id) rest → All (λ x. x.id ≢ r.id) (rest ++ row ∷ [])
    apart [] a = ((λ e. f.0 (sym e)), tt)
    apart (x ∷ rest) a = (a.0, apart rest a.1)
