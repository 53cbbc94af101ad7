-- ===== src/Emit/Lookups/Changes.antt =====
-- A plugin's change of a user's tags reaches the database (ws/events.go, persistence/buntdb.go).
use lightspeed_chat.Base.{Text, Bool, ◌≡◌, ap, ◌∙◌, some, List, returns, >>=-eq-returns, arith}
use lightspeed_chat.Types.{User, zero_user, TagUpdate}
use lightspeed_chat.Filter.{ExprLib}
use lightspeed_chat.Bunt.{Reply, ok, not_found, other_error, Kv}
use lightspeed_chat.Bunt.Users.{update_user_tags}
use lightspeed_chat.Bunt.Rooms.{Bunt}
use lightspeed_chat.Bunt.ReadBack.{IsStore}
use lightspeed_chat.Bunt.TagWrites.{IsTagged, update_user_tags-IsTagged}
use lightspeed_chat.Emit.Lookups.{change_user_tags, bunt_persister, or_failed}

or_failed-inversion : {A : Type 0} (r : Reply A) (a : A) → or_failed r ≡ some a → r ≡ ok a
or_failed-inversion (ok b) a h = cc
or_failed-inversion not_found a h = cc
or_failed-inversion other_error a h = cc

-- On BuntDB, where a plugin's ChangeUserTags returns a user and no error, that is the stored user with
-- the tags and the reports that UpdateTags makes of the stored tags, and the database holds it.
pub change_user_tags-IsTagged :
    (kv : Kv) (store : IsStore kv) (lib : ExprLib) (user_id : Text) (updates : List TagUpdate)
    (user : User) (oks : List Bool) (p p' : Bunt kv)
    → change_user_tags (some (bunt_persister kv lib)) user_id updates p
      ≡ returns (some (user, oks), p')
    → IsTagged kv store lib (record zero_user { id = user_id }) updates p.db user oks p'.db
unfolding change_user_tags
change_user_tags-IsTagged kv store lib user_id updates user oks p p' h =
    let asked : User = record zero_user { id = user_id } in
    let ((reply, db), done, e) =
      >>=-eq-returns (update_user_tags kv lib asked updates p.db)
        (λ (reply, db). returns (or_failed reply, record p { db = db })) h in
    let good : reply ≡ ok (user, oks) = or_failed-inversion reply (user, oks) (ground (arith, e)) in
    let same : db ≡ p'.db = ground (arith, e) in
    update_user_tags-IsTagged kv store lib asked user updates oks p.db p'.db
      (done ∙ ap returns (ap (λ r. (r, db)) good ∙ ap (λ d. (ok (user, oks), d)) same))
