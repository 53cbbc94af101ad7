-- ===== src/Bunt/Setup.antt =====
-- The opening of the files of persistence/buntdb.go (NewBuntPersister, setupBuntDB). The indexes of the
-- global file and the parsing of the template are parameters.
use lightspeed_chat.Base.{
  Text, codes, Dict, Bool, true, false, ◌≡◌, refl, subst, ◌∙◌, ◌&&◌, not, ◌⊎◌, inl, inr, Option,
  none, some, List, [], ◌∷◌, All, if◌then◌else◌, text_eq, lookup, insert, lookup-insert, Run,
  returns, panics, Ensures, Ensures-if, Ensures-option, Bool-cases, text_eq_refl,
}
use mathlib.Core.Option.{some-injective, none-ne-some}
use lightspeed_chat.Strings.{is_empty}
use lightspeed_chat.Types.{Room, zero_room}
use lightspeed_chat.Bunt.{Reply, ok, other_error, Kv, decode_all}
use lightspeed_chat.Bunt.Rooms.{Bunt, open_room_db}

-- The part of PersistenceConfig that is read.
pub record BuntConfig : Type 0 where
  pub global_name : Text
  pub room_name_template : Text

module _ (kv : Kv) (index_rooms index_users : kv.Db → Option kv.Db) (parses : Text → Bool) where
  -- The global file with its indexes, none for an error.
  unfoldable pub open_global : Text → Option kv.Db
  open_global file_name = elim (kv.open_file file_name) [
    | none ↦ none
    | some db ↦ elim (index_rooms db) [ none ↦ none | some db' ↦ index_users db' ]
  ]

  -- The rooms of the global file that decode.
  abbrev pub listed_rooms : kv.Db → List Room
  listed_rooms db =
      decode_all (λ val. kv.unmarshal_room val zero_room) (kv.descend (codes "rooms") db)

  -- The round of a room, none for an error; a room without identity is passed over.
  unfoldable pub open_room : Room → Dict kv.Db → Option (Dict kv.Db)
  open_room room room_dbs =
      if is_empty room.id
      then some room_dbs
      else elim (open_room_db kv room) [ none ↦ none | some db ↦ some (insert room.id db room_dbs) ]

  unfoldable pub open_rooms : List Room → Dict kv.Db → Option (Dict kv.Db)
  unfolding open_room
  open_rooms [] room_dbs = some room_dbs
  open_rooms (room ∷ rooms) room_dbs = elim (open_room room room_dbs) [
    | none ↦ none
    | some room_dbs' ↦ open_rooms rooms room_dbs'
  ]

  abbrev pub with_rooms : kv.Db → Option (Dict kv.Db) → Reply (Option (Bunt kv))
  with_rooms db none = other_error
  with_rooms db (some room_dbs) = ok (some (record { db = db; room_dbs = room_dbs }))

  -- `NewBuntPersister`: nil without both names; a template that does not parse panics.
  unfoldable pub new_bunt_persister : BuntConfig → Run (Reply (Option (Bunt kv)))
  unfolding open_global open_rooms
  new_bunt_persister cfg =
      if not (is_empty cfg.global_name) && not (is_empty cfg.room_name_template)
      then elim (open_global cfg.global_name) [
        | none ↦ returns other_error
        | some db ↦
            if parses cfg.room_name_template
            then returns (with_rooms db (open_rooms (listed_rooms db) []))
            else panics
      ]
      else returns (ok none)

  abbrev pub IsOpen : Dict kv.Db → Text → Type 0
  IsOpen room_dbs id = (db : kv.Db) × (lookup id room_dbs ≡ some db)

  -- Every room that the global file lists has a database, unless it has no identity.
  abbrev pub AllOpen : Reply (Option (Bunt kv)) → Type 0
  AllOpen (ok (some bunt)) =
      All (λ (room : Room). (is_empty room.id ≡ true) ⊎ IsOpen bunt.room_dbs room.id)
        (listed_rooms bunt.db)
  AllOpen _ = Unit

  insert-IsOpen :
      (id other : Text) (db : kv.Db) (room_dbs : Dict kv.Db)
      → IsOpen room_dbs id
      → IsOpen (insert other db room_dbs) id
  insert-IsOpen id other db room_dbs (old, there) = elim (Bool-cases (text_eq other id)) [
    | inl same ↦ (db, lookup-insert other id db room_dbs ∙ rw same refl)
    | inr apart ↦ (old, lookup-insert other id db room_dbs ∙ rw apart there)
  ]

  open_room-IsOpen :
      (room : Room) (room_dbs dbs : Dict kv.Db)
      → open_room room room_dbs ≡ some dbs
      → ((id : Text) → IsOpen room_dbs id → IsOpen dbs id)
        × ((is_empty room.id ≡ true) ⊎ IsOpen dbs room.id)
  unfolding open_room
  open_room-IsOpen room room_dbs dbs h = go (is_empty room.id) (open_room_db kv room) refl h
    where
      go :
          (b : Bool) (o : Option kv.Db)
          → is_empty room.id ≡ b
          → (if b
              then some room_dbs
              else elim o [ none ↦ none | some db ↦ some (insert room.id db room_dbs) ])
            ≡ some dbs
          → ((id : Text) → IsOpen room_dbs id → IsOpen dbs id)
            × ((is_empty room.id ≡ true) ⊎ IsOpen dbs room.id)
      go true o unnamed h =
          (λ id there. subst (λ d. IsOpen d id) (some-injective room_dbs dbs h) there, inl unnamed)
      go false none named h = absurd (none-ne-some dbs h)
      go false (some db) named h =
          let same = some-injective (insert room.id db room_dbs) dbs h in
          (
            λ id there. subst (λ d. IsOpen d id) same (insert-IsOpen id room.id db room_dbs there),
            inr (
                subst (λ d. IsOpen d room.id) same
                  (db, lookup-insert room.id room.id db room_dbs ∙ rw (text_eq_refl room.id) refl)),
          )

  -- The databases that were open stay so, and those of the rooms are open.
  open_rooms-IsOpen :
      (rooms : List Room) (room_dbs dbs : Dict kv.Db)
      → open_rooms rooms room_dbs ≡ some dbs
      → ((id : Text) → IsOpen room_dbs id → IsOpen dbs id)
        × All (λ (room : Room). (is_empty room.id ≡ true) ⊎ IsOpen dbs room.id) rooms
  unfolding open_rooms
  open_rooms-IsOpen [] room_dbs dbs h =
      (λ id there. subst (λ d. IsOpen d id) (some-injective room_dbs dbs h) there, tt)
  open_rooms-IsOpen (room ∷ rooms) room_dbs dbs h =
      go (open_room room room_dbs) refl h (λ room_dbs'. open_rooms-IsOpen rooms room_dbs' dbs)
    where
      Opened : Dict kv.Db → List Room → Type 0
      Opened from listed =
          ((id : Text) → IsOpen from id → IsOpen dbs id)
          × All (λ (r : Room). (is_empty r.id ≡ true) ⊎ IsOpen dbs r.id) listed

      go :
          (o : Option (Dict kv.Db))
          → open_room room room_dbs ≡ o
          → (elim o [ none ↦ none | some room_dbs' ↦ open_rooms rooms room_dbs' ]) ≡ some dbs
          → ((room_dbs' : Dict kv.Db)
              → open_rooms rooms room_dbs' ≡ some dbs
              → Opened room_dbs' rooms)
          → Opened room_dbs (room ∷ rooms)
      go none e h rest = absurd (none-ne-some dbs h)
      go (some room_dbs') e h rest =
          let one = open_room-IsOpen room room_dbs room_dbs' e in
          let others = rest room_dbs' h in
          (
            λ id there. others.0 id (one.0 id there),
            (
              elim one.1 [ inl unnamed ↦ inl unnamed | inr there ↦ inr (others.0 room.id there) ],
              others.1,
            ),
          )

  -- Where NewBuntPersister returns a persister, every room that the global file lists has its database
  -- open, unless the room has no identity.
  pub new_bunt_persister-AllOpen : (cfg : BuntConfig) → Ensures AllOpen (new_bunt_persister cfg)
  unfolding new_bunt_persister
  new_bunt_persister-AllOpen cfg =
      Ensures-if AllOpen (not (is_empty cfg.global_name) && not (is_empty cfg.room_name_template)) _
        _
        (λ _.
          Ensures-option AllOpen (open_global cfg.global_name) _ _ (λ _. tt)
            λ db _.
              Ensures-if AllOpen (parses cfg.room_name_template) _ _
                (λ _. opened db (open_rooms (listed_rooms db) []) refl) (λ _. tt))
        (λ _. tt)
    where
      opened :
          (db : kv.Db) (o : Option (Dict kv.Db))
          → open_rooms (listed_rooms db) [] ≡ o
          → AllOpen (with_rooms db o)
      opened db none e = tt
      opened db (some dbs) e = (open_rooms-IsOpen (listed_rooms db) [] dbs e).1
