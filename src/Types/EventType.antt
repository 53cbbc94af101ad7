-- ===== src/Types/EventType.antt =====
-- The event names of types/event.go and the wire message names of types/message.go that the code
-- compares with.
use lightspeed_chat.Base.{Text, codes}

abbrev pub info : Text
info = codes "info"

abbrev pub chat : Text
chat = codes "chat"

abbrev pub command : Text
command = codes "command"

abbrev pub user : Text
user = codes "user"

abbrev pub translation : Text
translation = codes "translation"

abbrev pub internal : Text
internal = codes "_internal"

abbrev pub login : Text
login = codes "login"

abbrev pub logout : Text
logout = codes "logout"
