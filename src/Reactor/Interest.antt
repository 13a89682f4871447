-- ===== src/Reactor/Interest.antt =====
-- What `IsReading` and `IsWriting` of src/net/channel.h tell of the methods of src/net/channel.cpp.
use turbo_net.Common.{Bool, true, false, List, [], ◌∷◌, Option, none, some}
use turbo_net.Reactor.{
  Events, Change, enable_reading, disable_reading, enable_writing, disable_writing, disable_all,
  changed,
}

-- `events_` behind a sequence of the methods.
abbrev pub all_changed : List Change → Events → Events
all_changed [] e = e
all_changed (op ∷ ops) e = all_changed ops (changed op e)

-- What a method asks for, or nothing.
abbrev pub asks_to_read : Change → Option Bool
asks_to_read enable_reading = some true
asks_to_read disable_reading = some false
asks_to_read enable_writing = none
asks_to_read disable_writing = none
asks_to_read disable_all = some false

abbrev pub asks_to_write : Change → Option Bool
asks_to_write enable_reading = none
asks_to_write disable_reading = none
asks_to_write enable_writing = some true
asks_to_write disable_writing = some false
asks_to_write disable_all = some false

abbrev pub or_before : Option Bool → Bool → Bool
or_before none b = b
or_before (some a) b = a

-- The last request of a sequence, behind one that was made before.
abbrev pub last_request : (Change → Option Bool) → List Change → Bool → Bool
last_request asks [] b = b
last_request asks (op ∷ ops) b = last_request asks ops (or_before (asks op) b)
