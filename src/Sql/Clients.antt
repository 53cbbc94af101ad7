-- ===== src/Sql/Clients.antt =====
-- The persister on SQLite behind the interfaces of its clients: the users of a session (ws/client.go and
-- cmd/lightspeed-chat/main.go) and what plugins look up and change (ws/events.go).
use lightspeed_chat.Base.{
  codes, if◌then◌else◌, Text, Bool, true, false, ◌≡◌, refl, ap, ◌∙◌, subst, ◌⊎◌, inl, inr, Option,
  none, some, returns, ◌>>=◌, arith,
}
use mathlib.Core.Option.{some-injective, none-ne-some}
use lightspeed_chat.Strings.{is_empty}
use lightspeed_chat.Types.{User, zero_user}
use lightspeed_chat.Filter.{ExprLib}
use lightspeed_chat.Bunt.{Reply, ok, not_found, other_error}
use lightspeed_chat.Session.{SessionLib, Turn, UserStore, Found, found, missing, failed}
use lightspeed_chat.Session.Identity.{FindsOwn}
use lightspeed_chat.Session.Connect.{known_user}
use lightspeed_chat.Emit.Lookups.{Persister, or_failed}
use lightspeed_chat.Sql.{Engine}
use lightspeed_chat.Sql.Tables.{UserRow}
use lightspeed_chat.Sql.Behaviour.{IsSql}
use lightspeed_chat.Sql.ReadBack.{Kept, get_user-store_user-Kept}
use lightspeed_chat.Sql.Users.{map_reply, user_of_row}
use lightspeed_chat.Sql.Users
use lightspeed_chat.Sql.Rooms

abbrev pub to_found : Reply User → Found
to_found (ok user) = found user
to_found not_found = missing
to_found other_error = failed

abbrev pub was_stored : {W : Type 0} → Reply (Unit {0}) × W → Bool × W
was_stored (ok _, w) = (true, w)
was_stored (not_found, w) = (false, w)
was_stored (other_error, w) = (false, w)

module _ (engine : Engine) where
  open engine use {Db}

  abbrev pub sql_users : UserStore Db
  sql_users = record {
    get_user = λ id db. to_found (Users.get_user engine (record zero_user { id = id }) db);
    store_user = λ user db. was_stored (Users.store_user engine user db);
  }

  abbrev pub sql_persister : ExprLib → Persister Db
  sql_persister lib = record {
    find_user = λ user db. or_failed (Users.get_user engine user db);
    find_room = λ room db. or_failed (Rooms.get_room engine room db);
    change_user = λ user updates db.
        Users.update_user_tags engine lib user updates db >>= λ (reply, db').
        returns (or_failed reply, db');
    change_room = λ room updates db.
        Rooms.update_room_tags engine lib room updates db >>= λ (reply, db').
        returns (or_failed reply, db');
  }

  own-found :
      (id : Text) (reply : Reply UserRow) (user : User)
      → to_found (map_reply (user_of_row engine (record zero_user { id = id })) reply) ≡ found user
      → user.id ≡ id
  unfolding user_of_row
  own-found id (ok row) user h = ground (arith, h)
  own-found id not_found user h = cc h
  own-found id other_error user h = cc h

  -- SQLite finds users under their own identity.
  pub sql_users-FindsOwn : FindsOwn sql_users
  unfolding Users.get_user
  sql_users-FindsOwn id db user h = own-found id (engine.query_user id db) user h

  module _ (sql : IsSql engine) where
    -- What a second connection with the identity gets.
    abbrev pub IsAgain : User → Option User → Type 0
    IsAgain fresh none = Unit
    IsAgain fresh (some user) = Kept engine sql fresh user

    again :
        (lib : SessionLib) (turn : Turn) (user fresh : User) (db : Db)
        → is_empty user.id ≡ false
        → (reply : Reply User)
        → Users.get_user engine (record zero_user { id = user.id }) db ≡ reply
        → (reply ≡ other_error) ⊎ ((u : User) × (reply ≡ ok u) × Kept engine sql fresh u)
        → IsAgain fresh (known_user lib (some sql_users) turn user db).0
    unfolding known_user
    again lib turn user fresh db named reply e (inl wrong) = rw (named, e ∙ wrong) tt
    again lib turn user fresh db named reply e (inr (u, right, kept)) = rw (named, e ∙ right) kept

    -- On SQLite, a user with an identity who is not stored yet and whose connection is accepted has the
    -- same identity, nick and language at the next connection under that identity, the time to the second
    -- and the tags as json.Unmarshal rebuilds them, unless that connection is refused.
    pub known_user-again :
        (lib : SessionLib) (turn turn' : Turn) (user fresh : User) (db db' : Db)
        → is_empty user.id ≡ false
        → Users.get_user engine (record zero_user { id = user.id }) db ≡ not_found
        → known_user lib (some sql_users) turn user db ≡ (some fresh, db')
        → IsAgain fresh (known_user lib (some sql_users) turn' user db').0
    unfolding known_user
    known_user-again lib turn turn' user fresh db db' named new accepted =
        let stored = rw (named, new) at accepted in
        go (Users.store_user engine first db) refl (ap (λ (p : Option User × Db). p.0) stored)
          (ap (λ (p : Option User × Db). p.1) stored)
      where
        first : User
        first = record user { language = codes "en"; last_online = turn.stamp.now }

        go :
            (end : Reply (Unit {0}) × Db)
            → Users.store_user engine first db ≡ end
            → (if (was_stored end).0 then some first else none) ≡ some fresh
            → (was_stored end).1 ≡ db'
            → IsAgain fresh (known_user lib (some sql_users) turn' user db').0
        go (ok _, d) e h k =
            again lib turn' user fresh db' named
              (Users.get_user engine (record zero_user { id = user.id }) db') refl
              (subst
                (λ (u : User).
                  (Users.get_user engine (record zero_user { id = user.id }) db' ≡ other_error)
                  ⊎ ((f : User) × (Users.get_user engine (record zero_user { id = user.id }) db'
                        ≡ ok f)
                      × Kept engine sql u f))
                (some-injective first fresh h)
                (get_user-store_user-Kept engine sql first (record zero_user { id = user.id }) db
                  db' (e ∙ ap (λ x. (ok tt, x)) k) refl))
        go (not_found, d) e h k = absurd (none-ne-some fresh h)
        go (other_error, d) e h k = absurd (none-ne-some fresh h)
