-- ===== src/Bunt/TagWrites.antt =====
-- UpdateUserTags writes what UpdateTags makes of the stored tags (persistence/buntdb.go).
use lightspeed_chat.Base.{
  Text, Bool, ◌≡◌, refl, sym, ap, ◌∙◌, subst, Option, some, List, [], Run, returns, panics, runs_on,
  >>=-eq-returns, arith, Bool-cases, inl, inr,
}
use lightspeed_chat.Strings.{is_empty}
use lightspeed_chat.Types.{User, TagUpdate, Tags, or_new}
use lightspeed_chat.Filter.{ExprLib}
use lightspeed_chat.Filter.TagUpdates.{update_tags}
use lightspeed_chat.Bunt.{
  Reply, ok, not_found, other_error, then_run, or_other, Kv, update, set_value, user_key,
}
use lightspeed_chat.Bunt.Users.{write_user, read_user, tag_user, update_user_tags}
use lightspeed_chat.Bunt.ReadBack.{
  IsStore, then_ok-inversion, or_other-inversion, update-inversion, set_value-inversion,
}

abbrev value_of : {A : Type 0} → A → Run A → A
value_of a (returns b) = b
value_of a panics = a
value_of a runs_on = a

module _ (kv : Kv) (store : IsStore kv) (lib : ExprLib) where
  -- From the user that was read to the user that was written.
  abbrev pub IsTagged : User → List TagUpdate → kv.Db → User → List Bool → kv.Db → Type 0
  IsTagged asked updates db user oks db' =
      (stored : User) × (tags : Option Tags) × (written : Text) × (read_user kv asked db
        ≡ ok stored)
      × (update_tags lib (some (or_new stored.tags [])) updates ≡ returns (tags, oks))
      × (user ≡ record stored { tags = tags })
      × (kv.marshal_user (record stored { tags = tags }) ≡ some written)
      × (kv.get (user_key stored.id) db' ≡ ok written)

  then_run-inversion :
      {A B : Type 0} (m : Reply A) (f : A → Run (Reply B)) (b : B)
      → then_run m f ≡ returns (ok b)
      → (a : A) × (m ≡ ok a) × (f a ≡ returns (ok b))
  then_run-inversion (ok a) f b h = (a, refl, h)
  then_run-inversion not_found f b h = cc
  then_run-inversion other_error f b h = cc

  written_lem :
      (stored user : User) (tags : Option Tags) (oks oks' : List Bool) (db db' : kv.Db)
      → write_user kv stored tags oks db ≡ ok ((user, oks'), db')
      → (written : Text) × (user ≡ record stored { tags = tags })
        × (oks ≡ oks')
        × (kv.marshal_user (record stored { tags = tags }) ≡ some written)
        × (kv.get (user_key stored.id) db' ≡ ok written)
  written_lem stored user tags oks oks' db db' h =
      let (text, made, rest) =
        then_ok-inversion (or_other (kv.marshal_user (record stored { tags = tags }))) _
          ((user, oks'), db') h in
      let ((u, tx), put, e) =
        then_ok-inversion (set_value kv (user_key stored.id) text db) _ ((user, oks'), db') rest in
      let (old, set) = set_value-inversion kv (user_key stored.id) text db tx put in
      (
        text,
        ap (user_of user) (sym e),
        ap (oks_of oks') e,
        or_other-inversion (kv.marshal_user (record stored { tags = tags })) text made,
        subst (λ d. kv.get (user_key stored.id) d ≡ ok text) (ap (db_of db') e)
            (store.get-set (user_key stored.id) text db old tx set),
      )
    where
      user_of : User → Reply ((User × List Bool) × kv.Db) → User
      user_of u (ok ((v, bs), d)) = v
      user_of u not_found = u
      user_of u other_error = u

      oks_of : List Bool → Reply ((User × List Bool) × kv.Db) → List Bool
      oks_of bs (ok ((v, cs), d)) = cs
      oks_of bs not_found = bs
      oks_of bs other_error = bs

      db_of : kv.Db → Reply ((User × List Bool) × kv.Db) → kv.Db
      db_of d (ok ((v, cs), d')) = d'
      db_of d not_found = d
      db_of d other_error = d

  tag_user_lem :
      (asked user : User) (updates : List TagUpdate) (oks : List Bool) (db db' : kv.Db)
      → tag_user kv lib asked updates db ≡ returns (ok ((user, oks), db'))
      → IsTagged asked updates db user oks db'
  unfolding tag_user
  tag_user_lem asked user updates oks db db' h =
      let (stored, read, rest) =
        then_run-inversion (read_user kv asked db) _ ((user, oks), db') h in
      let ((tags, oks'), done, e) =
        >>=-eq-returns (update_tags lib (some (or_new stored.tags [])) updates)
          (λ (tags, oks'). returns (write_user kv stored tags oks' db)) rest in
      let (text, same, same_oks, made, kept) =
        written_lem stored user tags oks' oks db db' (ap (value_of (ok ((user, oks), db'))) e) in
      (
        stored,
        tags,
        text,
        read,
        subst (λ bs. update_tags lib (some (or_new stored.tags [])) updates ≡ returns (tags, bs))
            same_oks done,
        same,
        made,
        kept,
      )

  -- Where UpdateUserTags succeeds, the user it reports is the stored one with the tags, and the
  -- reports, that UpdateTags makes of the stored tags, and the database holds that user under the
  -- stored identity, as json.Marshal writes it.
  pub update_user_tags-IsTagged :
      (asked user : User) (updates : List TagUpdate) (oks : List Bool) (db db' : kv.Db)
      → update_user_tags kv lib asked updates db ≡ returns (ok (user, oks), db')
      → IsTagged asked updates db user oks db'
  unfolding update_user_tags
  update_user_tags-IsTagged asked user updates oks db db' h =
      elim (Bool-cases (is_empty asked.id)) [
        | inl empty ↦ ground (arith, h, empty)
        | inr named ↦
            let (reply, tagged, e) =
              >>=-eq-returns (tag_user kv lib asked updates db)
                (λ reply. returns (update kv (λ _. reply) db)) (ground (arith, h, named)) in
            tag_user_lem asked user updates oks db db' (
              tagged
              ∙ ap returns (
                  update-inversion kv (λ _. reply) (user, oks) db db'
                    (ap (value_of (ok (user, oks), db')) e)))
      ]
