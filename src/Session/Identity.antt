-- ===== src/Session/Identity.antt =====
-- Who the user of a session may become (ReadLoop in ws/client.go).
use lightspeed_chat.Base.{
  Text, Bool, true, false, ◌≡◌, ◌≢◌, ap, sym, ◌∙◌, subst, ◌⊎◌, refl, inl, inr, Option, none, some,
  List, [], Run, ◌&&◌, not, Ensures, Ensures-bind, Ensures-if, text_eq, has_prefix, codes, length,
  ltb, arith, Option-cases, Bool-cases,
}
use lightspeed_chat.Strings.{is_empty, fields, first_two}
use lightspeed_chat.Types.{User, Time, fill_user}
use lightspeed_chat.Types.EventType
use lightspeed_chat.Session.{
  SessionLib, LoginMessage, UserStore, Found, found, missing, failed, Effect, Turn, Session, Next,
  goes_on, closes, or_close, payload_as, behind, then_next, log_out, guest, share,
}
use lightspeed_chat.Session.Login.{
  log_in, log_in_as, choose_language, resolve, become, login_id, fresh_user,
}
use lightspeed_chat.Session.Loop.{
  dispatch, reject_guest, chat, run_command, say, other, handle_message, first_word,
}
use lightspeed_chat.Session.Publishing.{session_of, or_close-Ensures, first_word-Ends}

-- A persister finds users under their own identity.
abbrev pub FindsOwn : {W : Type 0} → UserStore W → Type 0
FindsOwn {W} store =
    (id : Text) (w : W) (user : User) → store.get_user id w ≡ found user → user.id ≡ id

module _ {W : Type 0} where
  log_out-message : (turn : Turn) (s : Session W) → (log_out turn s).message ≡ s.message
  unfolding log_out
  log_out-message turn s =
      elim (Bool-cases (text_eq s.message.event EventType.logout && not (is_empty s.user.id))) [
        | inl leaves ↦ rw leaves refl
        | inr stays ↦ rw stays refl
      ]

  or_close-Ensures_eq :
      {A : Type 0} (P : Next W → Type 0) (o : Option A) (s : Session W) (f : A → Run (Next W))
      → P (closes s [])
      → ((a : A) → o ≡ some a → Ensures P (f a))
      → Ensures P (or_close o s f)
  or_close-Ensures_eq P none s f h k = h
  or_close-Ensures_eq P (some a) s f h k = k a refl

module _ {W : Type 0} (lib : SessionLib) where
  -- The identity and the nick are those of before.
  abbrev Keeps : Session W → Next W → Type 0
  Keeps s next =
      ((session_of next).user.id ≡ s.user.id) × ((session_of next).user.nick ≡ s.user.nick)

  dispatch-Keeps : (turn : Turn) (s : Session W) → Ensures (Keeps s) (dispatch lib turn s)
  unfolding dispatch reject_guest chat say run_command other share fill_user
  dispatch-Keeps turn s =
      Ensures-if (Keeps s) (is_empty s.user.id) _ _ (λ _. (refl, refl))
        (λ _.
          Ensures-if (Keeps s) (text_eq s.message.event EventType.chat) _ _
            (λ _.
              or_close-Ensures (Keeps s) (payload_as lib lib.decode_chat s) s _ (refl, refl)
                (λ decoded.
                  Ensures-if (Keeps s) (has_prefix decoded.0 (codes "/")) _ _
                    (λ _.
                      Ensures-bind (λ _. Unit {0}) (Keeps s) (first_word (fields decoded.0)) _
                        (first_word-Ends (fields decoded.0)) (λ command _. (refl, refl)))
                    (λ _. (refl, refl))))
            (λ _.
              or_close-Ensures (Keeps s) (payload_as lib lib.decode_other s) s _ (refl, refl)
                (λ _. (refl, refl))))

  -- Where the identity of a session comes from: the session before, the guest's name, or the token
  -- of a login.
  abbrev pub IsJustified : Turn → Session W → Text → Type 0
  IsJustified turn s id =
      (id ≡ s.user.id)
      ⊎ ((text_eq s.message.event EventType.logout ≡ true) × (id ≡ (guest turn s).id))
      ⊎ ((msg : LoginMessage) × (text_eq s.message.event EventType.login ≡ true)
          × (payload_as lib lib.decode_login s ≡ some msg)
          × (id ≡ login_id lib msg)
          × (id ≢ []))

  abbrev pub Justified : Turn → Session W → Next W → Type 0
  Justified turn s next = IsJustified turn s (session_of next).user.id

  log_out-IsJustified : (turn : Turn) (s : Session W) → IsJustified turn s (log_out turn s).user.id
  unfolding log_out
  log_out-IsJustified turn s =
      elim (Bool-cases (text_eq s.message.event EventType.logout && not (is_empty s.user.id))) [
        | inl leaves ↦ inr (inl (ground (arith, leaves), rw leaves refl))
        | inr stays ↦ inl (rw stays refl)
      ]

  by_token :
      (turn : Turn) (s : Session W) (msg : LoginMessage) (id : Text)
      → text_eq (log_out turn s).message.event EventType.login ≡ true
      → payload_as lib lib.decode_login (log_out turn s) ≡ some msg
      → is_empty (login_id lib msg) ≡ false
      → id ≡ login_id lib msg
      → IsJustified turn s id
  by_token turn s msg id login decoded known e =
      let same : (log_out turn s).message ≡ s.message = log_out-message turn s in
      inr (
        inr (
          msg,
          subst (λ m. text_eq m.event EventType.login ≡ true) same login,
          subst
              (λ m.
                elim (lib.unmarshal_map m.payload) [
                  | none ↦ none
                  | some payload ↦ lib.decode_login payload
                ]
                ≡ some msg)
              same decoded,
          e,
          λ empty. ground (arith, known, empty, e),
        ))

  choose_language-Justified :
      (turn : Turn) (s : Session W) (msg : LoginMessage) (identified : Bool) (s' : Session W)
      → IsJustified turn s s'.user.id
      → Ensures (Justified turn s) (choose_language lib msg identified s')
  unfolding choose_language
  choose_language-Justified turn s msg identified s' h =
      Ensures-if (Justified turn s) (ltb 1 (length msg.language) && not (is_empty s'.user.id)) _ _
        (λ _.
          Ensures-bind (λ _. Unit {0}) (Justified turn s) (first_two msg.language) _
            (Ensures-if (λ _. Unit) (ltb (length msg.language) 2) _ _ (λ _. tt) (λ _. tt))
            (λ _ _. h))
        (λ _. h)

  behind-session :
      (effects : List Effect) (next : Next W) → session_of (behind effects next) ≡ session_of next
  behind-session effects (goes_on s more) = refl
  behind-session effects (closes s more) = refl

  then_next-Justified :
      (turn : Turn) (s : Session W) (next : Next W)
      → Justified turn s next
      → Ensures (Justified turn s) (then_next next (dispatch lib turn))
  then_next-Justified turn s (closes s' effects) h = h
  then_next-Justified turn s (goes_on s' effects) h =
      Ensures-bind (Keeps s') (Justified turn s) (dispatch lib turn s') _ (dispatch-Keeps turn s')
        (λ next keeps. rw (behind-session effects next, keeps.0) h)

  module _ (users : Option (UserStore W)) where
    resolve_lem :
        ((store : UserStore W) → users ≡ some store → FindsOwn store)
        → (id : Text) (now : Time) (w : W) (user : User)
        → (resolve lib users id now w).0 ≡ some user
        → user.id ≡ id
    unfolding resolve fresh_user
    resolve_lem law id now w user h = elim (Option-cases users) [
      | inl alone ↦ cc (subst (λ u. (resolve lib u id now w).0 ≡ some user) alone h)
      | inr (store, e) ↦
          from_store store (law store e) (subst (λ u. (resolve lib u id now w).0 ≡ some user) e h)
    ]
      where
        from_found :
            (store : UserStore W) (f : Found)
            → store.get_user id w ≡ f
            → FindsOwn store
            → (resolve lib (some store) id now w).0 ≡ some user
            → user.id ≡ id
        from_found store (found u) e own g =
            let same : u ≡ user = ground (arith, e, g) in ap (λ x. x.id) (sym same) ∙ own id w u e
        from_found store missing e own g = ground (arith, e, g)
        from_found store failed e own g = ground (arith, e, g)

        from_store :
            (store : UserStore W)
            → FindsOwn store
            → (resolve lib (some store) id now w).0 ≡ some user
            → user.id ≡ id
        from_store store = from_found store (store.get_user id w) refl

    log_in-Justified :
        ((store : UserStore W) → users ≡ some store → FindsOwn store)
        → (turn : Turn) (s : Session W)
        → Ensures (Justified turn s) (log_in lib users turn (log_out turn s))
    unfolding log_in log_in_as
    log_in-Justified law turn s =
        let s' : Session W = log_out turn s in
        let before : IsJustified turn s s'.user.id = log_out-IsJustified turn s in
        Ensures-if (Justified turn s) (text_eq s'.message.event EventType.login) _ _
          (λ login.
            or_close-Ensures_eq (Justified turn s) (payload_as lib lib.decode_login s') s' _ before
              (λ msg decoded.
                Ensures-if (Justified turn s) (is_empty (login_id lib msg)) _ _
                  (λ _. choose_language-Justified turn s msg false s' before)
                  (λ known.
                    or_close-Ensures_eq (Justified turn s)
                      (resolve lib users (login_id lib msg) turn.stamp.now s'.world).0 _ _ before
                      (λ user e.
                        choose_language-Justified turn s msg true
                          (become lib user
                            (resolve lib users (login_id lib msg) turn.stamp.now s'.world).1 s')
                          (by_token turn s msg user.id login decoded known
                            (resolve_lem law (login_id lib msg) turn.stamp.now s'.world user e))))))
          (λ _. before)

    -- After a frame, the identity of the session is that of before, that which the token of a login
    -- frame proves, or, after a logout, that of a guest; where the persister finds users under their
    -- own identity.
    pub handle_message-Justified :
        ((store : UserStore W) → users ≡ some store → FindsOwn store)
        → (turn : Turn) (s : Session W)
        → Ensures (Justified turn s) (handle_message lib users turn s)
    unfolding handle_message
    handle_message-Justified law turn s =
        Ensures-bind (Justified turn s) (Justified turn s) (log_in lib users turn (log_out turn s))
          _ (log_in-Justified law turn s) (λ next before. then_next-Justified turn s next before)
