-- ===== src/Types/Complete.antt =====
-- Events without nil, and that `NewEvent` builds such events (types/event.go).
use lightspeed_chat.Base.{◌≡◌, refl, Text, Option, none, some}
use lightspeed_chat.Types.{User, Room, Source, Event, Tags, Stamp, new_event}

-- The pointer is not nil, and what it points to has the property.
abbrev pub Holds {ℓ} : {A : Type ℓ} → (A → Type 0) → Option A → Type 0
Holds P none = ⊥
Holds P (some a) = P a

pub Holds-some {ℓ} :
    {A : Type ℓ} (P : A → Type 0) (o : Option A) → Holds P o → (a : A) × (o ≡ some a) × P a
Holds-some P none h = elim h [ ]
Holds-some P (some a) h = (a, refl, h)

-- The map is not nil.
abbrev pub IsMade : Option Tags → Type 0
IsMade = Holds (λ _. Unit)

abbrev pub IsCompleteUser : User → Type 0
IsCompleteUser u = IsMade u.tags

abbrev pub IsCompleteRoom : Room → Type 0
IsCompleteRoom r = Holds IsCompleteUser r.owner × IsMade r.tags

abbrev pub IsCompleteSource : Source → Type 0
IsCompleteSource s = Holds IsCompleteUser s.user

-- No pointer and no map of the event is nil.
pub record IsComplete (e : Event) : Type 0 where
  pub room : Holds IsCompleteRoom e.room
  pub source : Holds IsCompleteSource e.source
  pub tags : IsMade e.tags

-- Whatever is nil among the arguments, the new event has no nil pointer and no nil map, whether
-- the hash succeeds or fails.
pub new_event-IsComplete :
    (st : Stamp) (room : Option Room) (source : Option Source) (filter language name : Text)
    (tags : Option Tags)
    → IsComplete (new_event st room source filter language name tags)
unfolding new_event
new_event-IsComplete st room source filter language name tags = record {
  room = (tt, tt);
  source = tt;
  tags = tt;
}
