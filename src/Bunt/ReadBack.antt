-- ===== src/Bunt/ReadBack.antt =====
-- What the persister on BuntDB stores is what it finds (persistence/buntdb.go).
use lightspeed_chat.Base.{
  Text, true, false, ◌≡◌, ◌≢◌, refl, sym, ap, ◌∙◌, subst, Option, none, some, List, [], ◌∷◌, All,
  lookup, insert, lookup-insert, text_eq_refl, arith, Option-cases, Bool-cases, inl, inr,
}
use lightspeed_chat.Strings.{is_empty}
use lightspeed_chat.Types.{User, Room, Event}
use lightspeed_chat.Bunt.{
  Reply, ok, not_found, other_error, then_ok, or_other, Kv, update, view, set_value, event_key,
  user_key,
}
use lightspeed_chat.Bunt.Rooms.{Bunt}
use lightspeed_chat.Bunt.Users.{store_user, get_user}
use lightspeed_chat.Bunt.Events.{set_events, store_events}

-- What buntdb documents of Get, Set and Delete.
pub record IsStore (kv : Kv) : Type 0 where
  pub get-set :
      (key value : Text) (db : kv.Db) (old : Option Text) (db' : kv.Db)
      → kv.set true key value db ≡ ok (old, db')
      → kv.get key db' ≡ ok value
  pub get-set_ne :
      (key other value : Text) (db : kv.Db) (old : Option Text) (db' : kv.Db)
      → kv.set true key value db ≡ ok (old, db')
      → other ≢ key
      → kv.get other db' ≡ kv.get other db
  pub delete-read_only : (key : Text) (db : kv.Db) → kv.delete false key db ≡ other_error

pub then_ok-inversion :
    {A B : Type 0} (m : Reply A) (f : A → Reply B) (b : B)
    → then_ok m f ≡ ok b
    → (a : A) × (m ≡ ok a) × (f a ≡ ok b)
then_ok-inversion (ok a) f b h = (a, refl, h)
then_ok-inversion not_found f b h = cc
then_ok-inversion other_error f b h = cc

pub or_other-inversion : {A : Type 0} (o : Option A) (a : A) → or_other o ≡ ok a → o ≡ some a
or_other-inversion none a h = cc
or_other-inversion (some b) a h = cc

-- No two of the events have the same key.
abbrev pub IsDistinct : List Event → Type 0
IsDistinct [] = Unit
IsDistinct (e ∷ es) = All (λ (e' : Event). event_key e.id ≢ event_key e'.id) es × IsDistinct es

module _ (kv : Kv) where
  pub update-inversion :
      {A : Type 0} (body : kv.Db → Reply (A × kv.Db)) (a : A) (db db' : kv.Db)
      → update kv body db ≡ (ok a, db')
      → body db ≡ ok (a, db')
  unfolding update
  update-inversion {A = A} body a db db' h = go (body db) refl
    where
      go : (r : Reply (A × kv.Db)) → body db ≡ r → body db ≡ ok (a, db')
      go (ok (b, db'')) e = elim (Bool-cases (kv.commits db'')) [
        | inl committed ↦ ground (arith, e, h, committed)
        | inr failed ↦ ground (arith, e, h, failed)
      ]
      go not_found e = ground (arith, e, h)
      go other_error e = ground (arith, e, h)

  pub set_value-inversion :
      (key value : Text) (db db' : kv.Db)
      → set_value kv key value db ≡ ok (tt, db')
      → (old : Option Text) × (kv.set true key value db ≡ ok (old, db'))
  set_value-inversion key value db db' h =
      let ((old, db''), set, e) = then_ok-inversion (kv.set true key value db) _ (tt, db') h in
      (old, ground (arith, set, e))

  -- The database has the event under its key, as json.Marshal writes it.
  abbrev pub IsKept : kv.Db → Event → Type 0
  IsKept db e =
      (text : Text) × (kv.marshal_event e ≡ some text) × (kv.get (event_key e.id) db ≡ ok text)

  module _ (store : IsStore kv) where
    -- A user who was stored without error is found under the same identity, as json.Unmarshal
    -- rebuilds it from the text of json.Marshal.
    pub get_user-store_user :
        (user asked read : User) (text : Text) (db db' : kv.Db)
        → store_user kv user db ≡ (ok tt, db')
        → kv.marshal_user user ≡ some text
        → asked.id ≡ user.id
        → is_empty asked.id ≡ false
        → kv.unmarshal_user text asked ≡ some read
        → get_user kv asked db' ≡ ok read
    unfolding store_user get_user
    get_user-store_user user asked read text db db' stored written same named back =
        let body : set_value kv (user_key user.id) text db ≡ ok (tt, db') =
          update-inversion (set_value kv (user_key user.id) text) tt db db'
            (ground (arith, stored, written)) in
        let (old, set) = set_value-inversion (user_key user.id) text db db' body in
        let found : kv.get (user_key asked.id) db' ≡ ok text =
          subst (λ id. kv.get (user_key id) db' ≡ ok text) (sym same)
            (store.get-set (user_key user.id) text db old db' set) in
        rw (named, view, found, back) refl

    set_events-head :
        (e : Event) (es : List Event) (db db' : kv.Db)
        → set_events kv (e ∷ es) db ≡ ok (tt, db')
        → (text : Text) × (old : Option Text) × (db₁ : kv.Db) × (kv.marshal_event e ≡ some text)
          × (kv.set true (event_key e.id) text db ≡ ok (old, db₁))
          × (set_events kv es db₁ ≡ ok (tt, db'))
    unfolding set_events
    set_events-head e es db db' h =
        let (text, made, rest) = then_ok-inversion (or_other (kv.marshal_event e)) _ (tt, db') h in
        let ((u, db₁), put, more) =
          then_ok-inversion (set_value kv (event_key e.id) text db) _ (tt, db') rest in
        let (old, set) = set_value-inversion (event_key e.id) text db db₁ put in
        (text, old, db₁, or_other-inversion (kv.marshal_event e) text made, set, more)

    set_events-keeps :
        (key : Text) (es : List Event) (db db' : kv.Db)
        → All (λ (e : Event). key ≢ event_key e.id) es
        → set_events kv es db ≡ ok (tt, db')
        → kv.get key db' ≡ kv.get key db
    unfolding set_events
    set_events-keeps key [] db db' h stored = ground (arith, stored)
    set_events-keeps key (e ∷ es) db db' h stored =
        let (text, old, db₁, made, set, more) = set_events-head e es db db' stored in
        set_events-keeps key es db₁ db' h.1 more
        ∙ store.get-set_ne (event_key e.id) key text db old db₁ set h.0

    set_events_lem :
        (es : List Event) (db db' : kv.Db)
        → IsDistinct es
        → set_events kv es db ≡ ok (tt, db')
        → All (IsKept db') es
    set_events_lem [] db db' h stored = tt
    set_events_lem (e ∷ es) db db' h stored =
        let (text, old, db₁, made, set, more) = set_events-head e es db db' stored in
        (
          (
            text,
            made,
            set_events-keeps (event_key e.id) es db₁ db' h.0 more
                ∙ store.get-set (event_key e.id) text db old db₁ set,
          ),
          set_events_lem es db₁ db' h.1 more,
        )

    -- StoreEvents without error leaves each of the events under its key in the database of the room,
    -- where their keys differ and the slice is not empty.
    pub store_events-keeps :
        (room : Room) (events : List Event) (p p' : Bunt kv)
        → store_events kv (some room) events p ≡ (ok tt, p')
        → is_empty events ≡ false
        → IsDistinct events
        → (db : kv.Db) × (lookup room.id p'.room_dbs ≡ some db) × All (IsKept db) events
    unfolding store_events
    store_events-keeps room events p p' stored some_events distinct =
        elim (Option-cases (lookup room.id p.room_dbs)) [
          | inl no_db ↦ ground (arith, stored, some_events, no_db)
          | inr (db, e) ↦
              let result : Reply (Unit {0}) × kv.Db = update kv (set_events kv events) db in
              let done : result.0 ≡ ok tt = ground (arith, stored, some_events, e) in
              let after : insert room.id result.1 p.room_dbs ≡ p'.room_dbs =
                ground (arith, stored, some_events, e) in
              (
                result.1,
                subst (λ dbs. lookup room.id dbs ≡ some result.1) after
                    (lookup-insert room.id room.id result.1 p.room_dbs
                      ∙ rw (text_eq_refl room.id) refl),
                set_events_lem events db result.1 distinct (
                    update-inversion (set_events kv events) tt db result.1
                      (ap (λ t. (t, result.1)) done)),
              )
        ]
