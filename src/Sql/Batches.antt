-- ===== src/Sql/Batches.antt =====
-- StoreEvents of persistence/sqlite.go stores all events or none.
use lightspeed_chat.Base.{
  Text, Dict, Bool, ◌≡◌, refl, ap, ◌∙◌, inl, inr, Option, none, some, List, [], ◌∷◌, lookup,
  lookup-insert, text_eq, text_eq_iff, if◌then◌else◌, returns, ◌>>=◌, Ensures, Ensures-bind,
  Ensures-imp, arith, Option-cases,
}
use lightspeed_chat.Types.{Event, Source, Room, or_new}
use lightspeed_chat.Delivery.{deref}
use lightspeed_chat.Bunt.{Reply, ok, not_found, other_error}
use lightspeed_chat.Sql.{Engine}
use lightspeed_chat.Sql.Tables.{EventRow, Database, add_event, apply}
use lightspeed_chat.Sql.Behaviour.{IsSql}
use lightspeed_chat.Sql.Transactions.{finish-cases, in_transaction-Ensures}
use lightspeed_chat.Sql.Events.{
  finish_batch, or_stop, insert_event, row_of_event, insert_events, store_events,
}

abbrev or_else {ℓ} : {A : Type ℓ} → Option A → Option A → Option A
or_else none o = o
or_else (some a) o = some a

-- The statements of a batch, one after the other.
add_all : Bool → Dict EventRow → Database → Database
add_all enforced [] t = t
add_all enforced ((id, row) ∷ rows) t = add_all enforced rows (apply enforced (add_event id row) t)

lookup-add :
    (enforced : Bool) (id j : Text) (row : EventRow) (t : Database)
    → lookup j (apply enforced (add_event id row) t).events
      ≡ or_else (lookup j t.events) (if text_eq id j then some row else none)
unfolding apply
lookup-add enforced id j row t = elim (Option-cases (lookup id t.events)) [
  | inl fresh ↦ ground (arith, lookup-insert id j row t.events, text_eq_iff id j, fresh)
  | inr (old, there) ↦ ground (arith, text_eq_iff id j, there)
]

lookup-add_all :
    (enforced : Bool) (rows : Dict EventRow) (j : Text) (t : Database)
    → lookup j (add_all enforced rows t).events ≡ or_else (lookup j t.events) (lookup j rows)
unfolding add_all lookup
lookup-add_all enforced [] j t = ground arith
lookup-add_all enforced ((id, row) ∷ rows) j t =
    rw
      (
        lookup-add_all enforced rows j (apply enforced (add_event id row) t),
        lookup-add enforced id j row t,
      )
      (ground arith)

add_all-keeps :
    (enforced : Bool) (rows : Dict EventRow) (t : Database)
    → ((add_all enforced rows t).users ≡ t.users) × ((add_all enforced rows t).rooms ≡ t.rooms)
unfolding add_all apply
add_all-keeps enforced [] t = (refl, refl)
add_all-keeps enforced ((id, row) ∷ rows) t =
    let (users, rooms) = add_all-keeps enforced rows (apply enforced (add_event id row) t) in
    elim (Option-cases (lookup id t.events)) [
      | inl fresh ↦ ground (arith, fresh, users, rooms)
      | inr (old, there) ↦ ground (arith, there, users, rooms)
    ]

module _ (engine : Engine) (sql : IsSql engine) where
  open engine use {Db, Tx}
  open sql use {enforced, tables, tables_in}

  -- The row of an event, under its identity.
  abbrev pub IsRowOf : Option Event → Text × EventRow → Type 0
  IsRowOf pointer (id, row) =
      (event : Event) × (source : Source) × (room : Room) × (tags : Text) × (pointer ≡ some event)
      × (event.source ≡ some source)
      × (event.room ≡ some room)
      × (engine.marshal_tags (some (or_new event.tags [])) ≡ some tags)
      × (id ≡ event.id)
      × (row ≡ row_of_event event source room tags)

  abbrev pub AreRowsOf : List (Option Event) → Dict EventRow → Type 0
  AreRowsOf [] [] = Unit
  AreRowsOf (pointer ∷ events) (row ∷ rows) = IsRowOf pointer row × AreRowsOf events rows
  AreRowsOf _ _ = ⊥

  -- Nothing, or all events as rows: an identity that was there keeps its row, of two events with the
  -- same identity the first counts, and the other tables stay.
  abbrev pub StoresAll : List (Option Event) → Db → Reply (Unit {0}) × Db → Type 0
  StoresAll events db (ok _, db') =
      (rows : Dict EventRow) × AreRowsOf events rows
      × ((id : Text)
          → lookup id (tables db').events ≡ or_else (lookup id (tables db).events) (lookup id rows))
      × ((tables db').users ≡ (tables db).users)
      × ((tables db').rooms ≡ (tables db).rooms)
  StoresAll events db (not_found, db') = tables db' ≡ tables db
  StoresAll events db (other_error, db') = tables db' ≡ tables db

  abbrev Inserts : List (Option Event) → Tx → Option Tx → Type 0
  Inserts events tx none = Unit
  Inserts events tx (some tx') =
      (rows : Dict EventRow) × AreRowsOf events rows
      × (tables_in tx' ≡ add_all enforced rows (tables_in tx))

  abbrev InsertsOne : Event → Tx → Option Tx → Type 0
  InsertsOne event tx none = Unit
  InsertsOne event tx (some tx') =
      (row : EventRow) × IsRowOf (some event) (event.id, row)
      × (tables_in tx' ≡ apply enforced (add_event event.id row) (tables_in tx))

  insert_event-InsertsOne :
      (event : Event) (tx : Tx) → Ensures (InsertsOne event tx) (insert_event engine event tx)
  unfolding insert_event
  insert_event-InsertsOne event tx =
      go (engine.marshal_tags (some (or_new event.tags []))) event.source event.room refl refl refl
    where
      exec : (source : Source) (room : Room) (tags : Text) → Option Tx
      exec source room tags =
          engine.exec_in (add_event event.id (row_of_event event source room tags)) tx

      done :
          (source : Source) (room : Room) (tags : Text)
          → engine.marshal_tags (some (or_new event.tags [])) ≡ some tags
          → event.source ≡ some source
          → event.room ≡ some room
          → (o : Option Tx) → exec source room tags ≡ o
          → InsertsOne event tx o
      done source room tags made from at none e = tt
      done source room tags made from at (some tx') e = (
        row_of_event event source room tags,
        (event, source, room, tags, refl, from, at, made, refl, refl),
        sql.exec_in-done (add_event event.id (row_of_event event source room tags)) tx tx' e,
      )

      go :
          (text : Option Text) (source : Option Source) (room : Option Room)
          → engine.marshal_tags (some (or_new event.tags [])) ≡ text
          → event.source ≡ source
          → event.room ≡ room
          → Ensures
              (InsertsOne event tx)
              (or_stop text (λ tags. do s ← deref source; r ← deref room; returns (exec s r tags)))
      go none source room made from at = tt
      go (some tags) none room made from at = tt
      go (some tags) (some source) none made from at = tt
      go (some tags) (some source) (some room) made from at =
          done source room tags made from at (exec source room tags) refl

  insert_events-Inserts :
      (events : List (Option Event)) (tx : Tx)
      → Ensures (Inserts events tx) (insert_events engine events tx)
  unfolding insert_events add_all
  insert_events-Inserts [] tx = ([], tt, refl)
  insert_events-Inserts (none ∷ events) tx = tt
  insert_events-Inserts (some event ∷ events) tx =
      Ensures-bind (InsertsOne event tx) (Inserts (some event ∷ events) tx)
        (insert_event engine event tx) _ (insert_event-InsertsOne event tx)
        (after (λ tx'. insert_events-Inserts events tx'))
    where
      extend :
          (tx' : Tx) (row : EventRow)
          → IsRowOf (some event) (event.id, row)
          → tables_in tx' ≡ apply enforced (add_event event.id row) (tables_in tx)
          → (o : Option Tx) → Inserts events tx' o
          → Inserts (some event ∷ events) tx o
      extend tx' row is_row done none more = tt
      extend tx' row is_row done (some tx'') (rows, are_rows, e) =
          ((event.id, row) ∷ rows, (is_row, are_rows), e ∙ ap (add_all enforced rows) done)

      after :
          ((tx' : Tx) → Ensures (Inserts events tx') (insert_events engine events tx'))
          → (o : Option Tx) → InsertsOne event tx o
          → Ensures
              (Inserts (some event ∷ events) tx)
              (or_stop o (λ tx'. insert_events engine events tx'))
      after ih none one = tt
      after ih (some tx') (row, is_row, done) =
          Ensures-imp (Inserts events tx') (Inserts (some event ∷ events) tx)
            (insert_events engine events tx') (ih tx') (extend tx' row is_row done)

  batch-StoresAll :
      (events : List (Option Event)) (tx : Tx) (db : Db)
      → tables_in tx ≡ tables db
      → (o : Option Tx) → Inserts events tx o
      → StoresAll events db (finish_batch engine tx db o)
  batch-StoresAll events tx db started none inserted = sql.rollback-tables tx db
  batch-StoresAll events tx db started (some tx') (rows, are_rows, e) =
      let whole : tables_in tx' ≡ add_all enforced rows (tables db) =
        e ∙ ap (add_all enforced rows) started in
      finish-cases engine sql (StoresAll events db) tt tx' db
        (λ db' kept. (
          rows,
          are_rows,
          λ id.
              ap (λ (t : Database). lookup id t.events) (kept ∙ whole)
              ∙ lookup-add_all enforced rows id (tables db),
          ap (λ (t : Database). t.users) (kept ∙ whole)
              ∙ (add_all-keeps enforced rows (tables db)).0,
          ap (λ (t : Database). t.rooms) (kept ∙ whole)
              ∙ (add_all-keeps enforced rows (tables db)).1,
        ))
        (λ db' kept. kept)

  -- On SQLite, StoreEvents without error stores all events of the batch, but for those whose
  -- identity is there already, and leaves the other tables; with an error it leaves all tables as
  -- they are; it may panic on nil.
  pub store_events-StoresAll :
      (events : List (Option Event)) (db : Db)
      → Ensures (StoresAll events db) (store_events engine events db)
  unfolding store_events
  store_events-StoresAll events db =
      in_transaction-Ensures engine sql (StoresAll events db) _ db refl λ tx started.
        Ensures-bind (Inserts events tx) (StoresAll events db) (insert_events engine events tx) _
          (insert_events-Inserts events tx) (batch-StoresAll events tx db started)
