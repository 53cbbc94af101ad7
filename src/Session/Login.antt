-- ===== src/Session/Login.antt =====
-- The case of a login in ReadLoop (ws/client.go): who the token names, where the user comes from, and
-- the language of the client.
use lightspeed_chat.Base.{
  Text, codes, Bool, true, false, ◌&&◌, ◌||◌, not, Option, none, some, [], ◌∷◌, length, ltb,
  if◌then◌else◌, text_eq, Run, returns, ◌>>=◌,
}
use lightspeed_chat.Strings.{is_empty, first_two}
use lightspeed_chat.Types.{User, Time}
use lightspeed_chat.Types.EventType
use lightspeed_chat.Session.{
  LoginMessage, SessionLib, found, missing, failed, UserStore, send_history, Turn, Session, Next,
  goes_on, or_close, payload_as, when, to_lower,
}

-- The user made for an identity that the persister does not have, or without persister.
unfoldable pub fresh_user : Text → Time → User
fresh_user user_id now = record {
  id = user_id;
  nick = user_id;
  language = codes "en";
  tags = none;
  last_online = now;
}

-- `userId` once the token is checked, empty if it is not valid or not sent.
abbrev pub login_id : SessionLib → LoginMessage → Text
login_id lib msg =
    if is_empty msg.id_token || is_empty msg.provider
    then []
    else lib.authenticate msg.id_token msg.provider

module _ {W : Type 0} (lib : SessionLib) where
  -- The session becomes the user's, whose language it takes if there is one.
  abbrev pub become : User → W → Session W → Session W
  become user w s = record s {
    user = user;
    language = if is_empty user.language then s.language else user.language;
    world = w;
  }

  -- The language that the message asks for, on an identified session, and whether to send the
  -- history.
  unfoldable pub choose_language : LoginMessage → Bool → Session W → Run (Next W)
  unfolding to_lower
  choose_language msg identified s =
      if ltb 1 (length msg.language) && not (is_empty s.user.id)
      then (do
        language ← first_two msg.language
        returns (goes_on (record s { language = to_lower lib language }) (send_history ∷ [])))
      else returns (goes_on s (when identified (send_history ∷ [])))

  module _ (users : Option (UserStore W)) where
    -- The user of an identity, and the persister's state; none where ReadLoop returns.
    unfoldable pub resolve : Text → Time → W → Option User × W
    unfolding fresh_user
    resolve user_id now w = elim users [
      | none ↦ (some (fresh_user user_id now), w)
      | some store ↦ elim (store.get_user user_id w) [
        | found user ↦ (some user, w)
        | missing ↦
            let (stored, w') = store.store_user (fresh_user user_id now) w in
            if stored then (some (fresh_user user_id now), w') else (none, w')
        | failed ↦ (none, w)
      ]
    ]

    unfoldable pub log_in_as : Turn → LoginMessage → Session W → Run (Next W)
    unfolding choose_language resolve
    log_in_as turn msg s =
        if is_empty (login_id lib msg)
        then choose_language msg false s
        else (let (user, w) = resolve (login_id lib msg) turn.stamp.now s.world in
            or_close user (record s { world = w }) (λ u. choose_language msg true (become u w s)))

    unfoldable pub log_in : Turn → Session W → Run (Next W)
    unfolding log_in_as
    log_in turn s =
        if text_eq s.message.event EventType.login
        then or_close (payload_as lib lib.decode_login s) s (λ msg. log_in_as turn msg s)
        else returns (goes_on s [])
