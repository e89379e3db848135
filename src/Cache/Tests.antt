-- ===== src/Cache/Tests.antt =====
-- A concrete cache with one entry that expires.
use gdrive_bot.Base.{◌≡◌, refl, none, some, [], ◌∷◌, bytes, str_eq, if◌then◌else◌, pos}
use gdrive_bot.Cache.{lookup, MemoryCache, get, set}
use gdrive_bot.Cache.Laws.{live, lasts, Unique, get_visible, live-set}

abbrev one_page : MemoryCache
one_page = (bytes "explist:1", record { value = bytes "{}"; expires = some 100 }) ∷ []

get_visible_example :
    (get 101 (bytes "explist:1") one_page).1 ≡ live 101 one_page (bytes "explist:1")
get_visible_example = get_visible 101 one_page (bytes "explist:1")

live-set_example :
    live 60 (set 50 (bytes "authz:7") (bytes "true") (pos 20) one_page) (bytes "authz:7") ≡ (
      if str_eq (bytes "authz:7") (bytes "authz:7")
      then (if lasts 50 (pos 20) 60 then some (bytes "true") else none)
      else live 60 one_page (bytes "authz:7"))
live-set_example =
    live-set 50 one_page (bytes "authz:7") (bytes "true") (pos 20) (bytes "authz:7") 60

one_page-Unique : Unique one_page
unfolding lookup
one_page-Unique = (refl, tt)
