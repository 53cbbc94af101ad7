-- ===== src/Session/Filters.antt =====
-- The filter that keeps a command with its sender (ReadLoop in ws/client.go).
use lightspeed_chat.Base.{
  Text, codes, true, false, ◌≡◌, some, [], ◌∷◌, ◌++◌, append-nil, refl, subst,
}
use lightspeed_chat.Strings.{is_empty}
use lightspeed_chat.Strconv.Quote.Literal.{literal_end, quote_lem}
use lightspeed_chat.Session.{SessionLib, ChatMessage, Session}
use lightspeed_chat.Session.Loop.{command_filter}

-- Without a filter of the message's own, the filter of a command compares the identity with one
-- string literal, which ends where the filter ends, whatever bytes the user's identity holds.
pub command_filter_lem :
    {W : Type 0} (lib : SessionLib) (s : Session W) (msg : ChatMessage)
    → is_empty msg.filter ≡ true
    → (body : Text) × (command_filter lib s msg ≡ codes "Target.User.Id == " ++ (b'"' ∷ body))
      × (literal_end false body ≡ some [])
command_filter_lem lib s msg plain =
    let (body, quoted, ends) = quote_lem lib.is_print s.user.id [] in
    (
      body,
      rw (plain, quoted) refl,
      subst (λ t. literal_end false t ≡ some []) (append-nil body) ends,
    )
