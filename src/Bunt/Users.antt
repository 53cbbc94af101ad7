-- ===== src/Bunt/Users.antt =====
-- The users of persistence/buntdb.go.
use lightspeed_chat.Base.{
  Option, codes, Bool, false, none, some, List, [], if◌then◌else◌, Run, returns, ◌>>=◌,
}
use lightspeed_chat.Strings.{is_empty}
use lightspeed_chat.Types.{User, Tags, zero_user, TagUpdate, or_new}
use lightspeed_chat.Filter.{ExprLib}
use lightspeed_chat.Filter.TagUpdates.{update_tags}
use lightspeed_chat.Bunt.{
  Reply, ok, other_error, then_ok, then_run, or_other, Kv, update, view, set_value, delete_value,
  user_key, decode_all,
}

-- `kv.Db` is the global database, `p.db`.
module _ (kv : Kv) where
  unfoldable pub store_user : User → kv.Db → Reply (Unit {0}) × kv.Db
  unfolding update
  store_user user db = elim (kv.marshal_user user) [
    | none ↦ (other_error, db)
    | some u ↦ update kv (set_value kv (user_key user.id) u) db
  ]

  -- The user whose fields are filled in; the caller's is only changed by a success, or by a value
  -- that is no user.
  unfoldable pub get_user : User → kv.Db → Reply User
  unfolding view
  get_user user db =
      if is_empty user.id
      then other_error
      else view kv
          (λ tx.
            then_ok (kv.get (user_key user.id) tx)
              (λ u. then_ok (or_other (kv.unmarshal_user u user)) (λ user'. ok (user', tx))))
          db

  unfoldable pub get_users : kv.Db → Reply (List User)
  get_users db =
      ok (decode_all (λ val. kv.unmarshal_user val zero_user) (kv.descend (codes "users") db))

  -- The stored user, read over the caller's.
  abbrev pub read_user : User → kv.Db → Reply User
  read_user user tx =
      then_ok (kv.get (user_key user.id) tx) (λ u. or_other (kv.unmarshal_user u user))

  -- The user with new tags, written under its key.
  abbrev pub write_user :
      User → Option Tags → List Bool → kv.Db → Reply ((User × List Bool) × kv.Db)
  write_user stored tags oks tx =
      let user' : User = record stored { tags = tags } in
      then_ok (or_other (kv.marshal_user user')) (λ text.
        then_ok (set_value kv (user_key stored.id) text tx) (λ (_, tx'). ok ((user', oks), tx')))

  -- The body of the transaction of UpdateUserTags: the user and the reports.
  unfoldable pub tag_user :
      (lib : ExprLib) → User → List TagUpdate → kv.Db → Run (Reply ((User × List Bool) × kv.Db))
  tag_user lib user updates tx = then_run (read_user user tx) (λ stored. do
    (tags, oks) ← update_tags lib (some (or_new stored.tags [])) updates
    returns (write_user stored tags oks tx))

  unfoldable pub update_user_tags :
      (lib : ExprLib) → User → List TagUpdate → kv.Db → Run (Reply (User × List Bool) × kv.Db)
  unfolding update tag_user
  update_user_tags lib user updates db =
      if is_empty user.id
      then returns (other_error, db)
      else (do reply ← tag_user lib user updates db; returns (update kv (λ _. reply) db))

  -- The transaction is a `View`.
  unfoldable pub delete_user : User → kv.Db → Reply (Unit {0}) × kv.Db
  unfolding view
  delete_user user db =
      if is_empty user.id
      then (other_error, db)
      else (view kv (delete_value kv false (user_key user.id)) db, db)
