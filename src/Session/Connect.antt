-- ===== src/Session/Connect.antt =====
-- The user of a new connection (websocketHandler in cmd/lightspeed-chat/main.go).
use lightspeed_chat.Base.{
  Text, codes, Bool, true, false, ◌≡◌, ◌≢◌, ◌⊎◌, inl, inr, refl, sym, ap, subst, ◌∙◌, ◌||◌, not,
  Option, none, some, [], ◌∷◌, ◌++◌, select, All, if◌then◌else◌, has_prefix, arith, Bool-cases,
  Option-cases,
}
use lightspeed_chat.Strings.{is_empty}
use lightspeed_chat.Types.{User, Room, Tags, zero_time}
use lightspeed_chat.Session.{
  SessionLib, UserStore, Found, found, missing, failed, Turn, allows_guests,
}
use lightspeed_chat.Session.Identity.{FindsOwn}

-- The query values `id_token` and `provider`, empty where they are missing.
pub record Query : Type 0 where
  pub id_token : Text
  pub provider : Text

abbrev pub query_id : SessionLib → Query → Text
query_id lib query =
    if is_empty query.id_token || is_empty query.provider
    then []
    else lib.authenticate query.id_token query.provider

abbrev pub guest_nick : Turn → Text
guest_nick turn = turn.fantasy_name ++ codes " (guest)"

-- The user before the persister is asked.
unfoldable pub arriving_user : SessionLib → Turn → Room → Query → User
arriving_user lib turn room query =
    let user_id = query_id lib query in
    record {
      id =
          if is_empty user_id
          then if allows_guests room.tags then guest_nick turn else []
          else user_id;
      nick = if is_empty user_id then guest_nick turn else user_id;
      language = [];
      tags = some [];
      last_online = zero_time;
    }

abbrev pub is_plain_tag : Text × Text → Bool
is_plain_tag (key, value) = not (has_prefix key (codes "_"))

abbrev pub plain_tags : Option Tags → Option Tags
plain_tags none = none
plain_tags (some tags) = some (select is_plain_tag tags)

-- `delete` of the internal tags.
unfoldable pub strip : User → User
strip user = record user { tags = plain_tags user.tags }

-- The identity of a new connection: the one that the token proves, else that of a guest, whose name
-- it is where the room allows guests and who has none where it does not.
abbrev pub IsArriving : SessionLib → Turn → Room → Query → Text → Type 0
IsArriving lib turn room query id =
    ((query_id lib query ≢ []) × (id ≡ query_id lib query))
    ⊎ ((query_id lib query ≡ []) × (allows_guests room.tags ≡ true) × (id ≡ guest_nick turn))
    ⊎ ((query_id lib query ≡ []) × (allows_guests room.tags ≡ false) × (id ≡ []))

arriving_user-IsArriving :
    (lib : SessionLib) (turn : Turn) (room : Room) (query : Query)
    → IsArriving lib turn room query (arriving_user lib turn room query).id
unfolding arriving_user
arriving_user-IsArriving lib turn room query = by_id (query_id lib query) refl
  where
    by_id :
        (id : Text)
        → query_id lib query ≡ id
        → IsArriving lib turn room query (arriving_user lib turn room query).id
    by_id (c ∷ id) e = inl (λ h. cc, rw e refl)
    by_id [] e = elim (Bool-cases (allows_guests room.tags)) [
      | inl allowed ↦ inr (inl (e, allowed, rw (e, allowed) refl))
      | inr refused ↦ inr (inr (e, refused, rw (e, refused) refl))
    ]

-- No key marks an internal tag.
abbrev pub IsPlainTags : Option Tags → Type 0
IsPlainTags none = Unit
IsPlainTags (some tags) = All (λ t. is_plain_tag t ≡ true) tags

select-is_plain_tag : (tags : Tags) → All (λ t. is_plain_tag t ≡ true) (select is_plain_tag tags)
select-is_plain_tag [] = tt
select-is_plain_tag (t ∷ tags) = ground (arith, select-is_plain_tag tags)

plain_tags-IsPlainTags : (tags : Option Tags) → IsPlainTags (plain_tags tags)
plain_tags-IsPlainTags none = tt
plain_tags-IsPlainTags (some tags) = select-is_plain_tag tags

module _ {W : Type 0} (lib : SessionLib) (users : Option (UserStore W)) where
  -- The user from the persister, who replaces all fields; none where the handler returns.
  unfoldable pub known_user : Turn → User → W → Option User × W
  known_user turn user w = elim users [
    | none ↦ (some user, w)
    | some store ↦ if is_empty user.id then (some user, w) else elim (store.get_user user.id w) [
      | found stored ↦ (some stored, w)
      | missing ↦
          let fresh : User = record user { language = codes "en"; last_online = turn.stamp.now } in
          let (stored, w') = store.store_user fresh w in (if stored then some fresh else none, w')
      | failed ↦ (none, w)
    ]
  ]

  unfoldable pub connect : Turn → Room → Query → W → Option User × W
  unfolding known_user arriving_user strip
  connect turn room query w =
      let (user, w') = known_user turn (arriving_user lib turn room query) w in
      (elim user [ none ↦ none | some u ↦ some (strip u) ], w')

  known_user_lem :
      ((store : UserStore W) → users ≡ some store → FindsOwn store)
      → (turn : Turn) (user u : User) (w : W) → (known_user turn user w).0 ≡ some u
      → u.id ≡ user.id
  unfolding known_user
  known_user_lem law turn user u w h = elim (Option-cases users) [
    | inl alone ↦ ground (arith, alone, h)
    | inr (store, e) ↦ elim (Bool-cases (is_empty user.id)) [
      | inl unnamed ↦ ground (arith, e, unnamed, h)
      | inr named ↦ from_found store e named (store.get_user user.id w) refl
    ]
  ]
    where
      from_found :
          (store : UserStore W)
          → users ≡ some store
          → is_empty user.id ≡ false
          → (f : Found) → store.get_user user.id w ≡ f
          → u.id ≡ user.id
      from_found store e named (found stored) got =
          let same : stored ≡ u = ground (arith, e, named, got, h) in
          ap (λ x. x.id) (sym same) ∙ law store e user.id w stored got
      from_found store e named missing got = ground (arith, e, named, got, h)
      from_found store e named failed got = ground (arith, e, named, got, h)

  -- The user of a new connection has no internal tag; the identity is the one that the token proves,
  -- or, without a valid token, the guest's name where the room allows guests and empty where it does
  -- not; where the persister finds users under their own identity.
  pub connect-IsPlainTags :
      ((store : UserStore W) → users ≡ some store → FindsOwn store)
      → (turn : Turn) (room : Room) (query : Query) (w : W) (user : User)
      → (connect turn room query w).0 ≡ some user
      → IsPlainTags user.tags × IsArriving lib turn room query user.id
  unfolding connect strip
  connect-IsPlainTags law turn room query w user h =
      go (known_user turn (arriving_user lib turn room query) w).0 refl
    where
      go :
          (o : Option User)
          → (known_user turn (arriving_user lib turn room query) w).0 ≡ o
          → IsPlainTags user.tags × IsArriving lib turn room query user.id
      go none e = ground (arith, e, h)
      go (some u) e =
          let same : strip u ≡ user = ground (arith, e, h) in
          (
            subst (λ (v : User). IsPlainTags v.tags) same (plain_tags-IsPlainTags u.tags),
            subst (IsArriving lib turn room query)
                (sym (
                  ap (λ v. v.id) (sym same)
                  ∙ known_user_lem law turn (arriving_user lib turn room query) u w e))
                (arriving_user-IsArriving lib turn room query),
          )
