-- ===== src/Sql/Rows.antt =====
-- Rows that are read one after the other, and their order (persistence/sqlite.go).
use lightspeed_chat.Base.{
  true, ◌≡◌, refl, ap, subst, Option, none, some, List, [], ◌∷◌, ◌++◌, map, All, All-append,
  All-split, arith,
}
use lightspeed_chat.Bunt.{ok}
use lightspeed_chat.Bunt.ReadBack.{then_ok-inversion}
use lightspeed_chat.Sql.{Scans}
use lightspeed_chat.Sql.Tables.{Match, in_order}
use lightspeed_chat.Sql.Behaviour.{Shows, Arranges, IsOrdered}
use lightspeed_chat.Sql.Users.{read_all, read_query}

-- The first rows, each as it is read.
abbrev pub ReadsFirst : {A B : Type 0} → (A → B) → List A → List B → Type 0
ReadsFirst {A} read rows out =
    (shown : List A) × (rest : List A) × (rows ≡ shown ++ rest) × (out ≡ map read shown)

-- A loop that returns without error has read the first rows, and all of them unless the iteration broke
-- off.
pub read_all-ReadsFirst :
    {A B : Type 0} (read : A → B) (rows : List A) (scans : Scans A) (out : List B)
    → Shows rows scans
    → read_all read scans ≡ ok out
    → ReadsFirst read rows out
unfolding read_all
read_all-ReadsFirst read rows [] out shows e = ([], rows, refl, cc e)
read_all-ReadsFirst read [] (scan ∷ scans) out shows e = absurd shows
read_all-ReadsFirst read (row ∷ rows) (none ∷ scans) out shows e = cc e
read_all-ReadsFirst read (row ∷ rows) (some r ∷ scans) out shows e =
    let (more, read_more, done) =
      then_ok-inversion (read_all read scans) (λ read_rows. ok (read r ∷ read_rows)) out e in
    let (shown, rest, split, same) = read_all-ReadsFirst read rows scans more shows.1 read_more in
    (row ∷ shown, rest, ap (λ xs. row ∷ xs) split, ground (arith, shows.0, done, same))

-- The same, from the query on.
pub read_query-inversion :
    {A B : Type 0} (read : A → B) (o : Option (Scans A)) (out : List B)
    → read_query read o ≡ ok out
    → (scans : Scans A) × (o ≡ some scans) × (read_all read scans ≡ ok out)
unfolding read_query
read_query-inversion read none out e = cc e
read_query-inversion read (some scans) out e = (scans, refl, e)

pub Arranges-All :
    {A : Type 0} (P : A → Type 0) (xs ys : List A) → Arranges xs ys → All P ys → All P xs
Arranges-All P [] ys h all = tt
Arranges-All P (x ∷ xs) ys (front, behind, e, h) all =
    let split = All-split P front (x ∷ behind) (subst (All P) e all) in
    (split.1.0, Arranges-All P xs (front ++ behind) h (All-append P front behind split.0 split.1.1))

pub IsOrdered-append :
    (xs ys : List Match) → IsOrdered (xs ++ ys) → All (λ x. All (λ y. in_order x y ≡ true) ys) xs
IsOrdered-append [] ys h = tt
IsOrdered-append (x ∷ xs) ys h =
    ((All-split (λ y. in_order x y ≡ true) xs ys h.0).1, IsOrdered-append xs ys h.1)
