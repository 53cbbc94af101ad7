-- ===== src/Session/Failing.antt =====
-- Which frames make ReadLoop panic (ws/client.go).
use lightspeed_chat.Base.{
  Text, codes, Bool, true, false, ◌&&◌, not, ◌≡◌, refl, sym, subst, ◌∙◌, ◌⊎◌, Option, none, some,
  ◌∷◌, length, ltb, Run, returns, panics, runs_on, has_prefix, text_eq, Safely, Safely-bind,
  Safely-if, inl, inr, Option-cases, arith,
}
use mathlib.Core.Option.{some-injective}
use lightspeed_chat.Strings.{is_empty, first_two}
use lightspeed_chat.Types.EventType
use lightspeed_chat.Session.{
  SessionLib, WireMessage, LoginMessage, UserStore, Turn, Session, Next, goes_on, closes, or_close,
  payload_as, then_next, log_out,
}
use lightspeed_chat.Session.Login.{choose_language, log_in, log_in_as, resolve, login_id}
use lightspeed_chat.Session.Loop.{chat, chat_message, other, dispatch, handle_message, read_frame}
use lightspeed_chat.Session.Commands.{command-word, run_command_lem}

-- The code returns.
abbrev Returns : {A : Type 0} → Run A → Type 0
Returns = Safely (λ _. Unit {0})

-- The frame decodes to a nil message.
abbrev pub IsNull : {W : Type 0} → SessionLib → Turn → Session W → Type 0
IsNull lib turn s =
    (raw : Text) × (turn.raw ≡ some raw) × (lib.unmarshal_frame raw s.message ≡ some none)

Safely-inversion : {A : Type 0} (m : Run A) → Returns m → (a : A) × (m ≡ returns a)
Safely-inversion (returns a) h = (a, refl)
Safely-inversion panics h = absurd h
Safely-inversion runs_on h = absurd h

module _ {W : Type 0} where
  or_close-Returns :
      {A : Type 0} (o : Option A) (s : Session W) (f : A → Run (Next W))
      → ((a : A) → Returns (f a))
      → Returns (or_close o s f)
  or_close-Returns none s f k = tt
  or_close-Returns (some a) s f k = k a

  then_next-Returns :
      (next : Next W) (f : Session W → Run (Next W))
      → ((s : Session W) → Returns (f s))
      → Returns (then_next next f)
  then_next-Returns (closes s effects) f k = tt
  then_next-Returns (goes_on s effects) f k =
      Safely-bind (λ _. Unit) (λ _. Unit) (f s) _ (k s) (λ _ _. tt)

  module _ (lib : SessionLib) where
    choose_language-Returns :
        (msg : LoginMessage) (identified : Bool) (s : Session W)
        → Returns (choose_language lib msg identified s)
    unfolding choose_language
    choose_language-Returns msg identified s =
        Safely-if (λ _. Unit) (ltb 1 (length msg.language) && not (is_empty s.user.id)) _ _
          (λ long.
            Safely-bind (λ _. Unit) (λ _. Unit) (first_two msg.language) _
              (Safely-if (λ _. Unit) (ltb (length msg.language) 2) _ _
                (λ short. ground (arith, long, short)) (λ _. tt))
              (λ _ _. tt))
          (λ _. tt)

    dispatch-Returns : (turn : Turn) (s : Session W) → Returns (dispatch lib turn s)
    unfolding dispatch chat other
    dispatch-Returns turn s =
        Safely-if (λ _. Unit) (is_empty s.user.id) _ _ (λ _. tt)
          (λ _.
            Safely-if (λ _. Unit) (text_eq s.message.event EventType.chat) _ _
              (λ _. or_close-Returns (payload_as lib lib.decode_chat s) s _ (λ decoded.
                Safely-if (λ _. Unit) (has_prefix decoded.0 (codes "/")) _ _
                  (λ slash.
                    let (word, words, e) = command-word decoded.0 slash in
                    rw
                      (run_command_lem lib turn (chat_message lib turn s decoded) s (b'/' ∷ word)
                        words e)
                      tt)
                  (λ _. tt)))
              (λ _. or_close-Returns (payload_as lib lib.decode_other s) s _ (λ _. tt)))

    module _ (users : Option (UserStore W)) where
      log_in-Returns : (turn : Turn) (s : Session W) → Returns (log_in lib users turn s)
      unfolding log_in log_in_as
      log_in-Returns turn s =
          Safely-if (λ _. Unit) (text_eq s.message.event EventType.login) _ _
            (λ _. or_close-Returns (payload_as lib lib.decode_login s) s _ (λ msg.
              Safely-if (λ _. Unit) (is_empty (login_id lib msg)) _ _
                (λ _. choose_language-Returns msg false s)
                (λ _.
                  or_close-Returns (resolve lib users (login_id lib msg) turn.stamp.now s.world).0 _
                    _ (λ _. choose_language-Returns msg true _))))
            (λ _. tt)

      handle_message-Returns :
          (turn : Turn) (s : Session W) → Returns (handle_message lib users turn s)
      unfolding handle_message
      handle_message-Returns turn s =
          Safely-bind (λ _. Unit) (λ _. Unit) (log_in lib users turn (log_out turn s)) _
            (log_in-Returns turn (log_out turn s))
            (λ next _. then_next-Returns next (dispatch lib turn) (dispatch-Returns turn))

      -- A frame that decodes to a nil message, as the JSON text null does, makes ReadLoop panic; on
      -- every other frame it comes to an end without a panic: it goes on or closes the connection.
      pub read_frame-panics :
          (turn : Turn) (s : Session W)
          → (IsNull lib turn s × (read_frame lib users turn s ≡ panics))
            ⊎ ((¬ (IsNull lib turn s))
                × (next : Next W) × (read_frame lib users turn s ≡ returns next))
      unfolding read_frame
      read_frame-panics turn s = elim (Option-cases turn.raw) [
        | inl closed ↦ proper (λ (raw, e, null). cc) (rw (read_frame, closed) tt)
        | inr (raw, e) ↦ elim (Option-cases (lib.unmarshal_frame raw s.message)) [
          | inl bad ↦
              proper (λ null. other_end raw e none bad null (λ h. cc)) (rw (read_frame, e, bad) tt)
          | inr (none, null) ↦ inl ((raw, e, null), rw (e, null) refl)
          | inr (some message, read) ↦
              proper (λ null. other_end raw e (some (some message)) read null (λ h. cc))
                (rw (read_frame, e, read)
                  (handle_message-Returns turn (record s { message = message })))
        ]
      ]
        where
          proper :
              ¬ (IsNull lib turn s)
              → Returns (read_frame lib users turn s)
              → (IsNull lib turn s × (read_frame lib users turn s ≡ panics))
                ⊎ ((¬ (IsNull lib turn s))
                    × (next : Next W) × (read_frame lib users turn s ≡ returns next))
          proper differs h =
              let (next, e) = Safely-inversion (read_frame lib users turn s) h in
              inr (differs, next, e)

          other_end :
              (raw : Text)
              → turn.raw ≡ some raw
              → (end : Option (Option WireMessage)) → lib.unmarshal_frame raw s.message ≡ end
              → IsNull lib turn s
              → ¬ (end ≡ some none)
              → ⊥
          other_end raw e end read (raw', e', null) differs = differs (
              sym read
              ∙ subst (λ r. lib.unmarshal_frame r s.message ≡ some none)
                  (sym (some-injective raw raw' (sym e ∙ e'))) null)
