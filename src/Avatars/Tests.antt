-- ===== src/Avatars/Tests.antt =====
-- The theorem on the cache of pictures at a concrete sequence of steps.
use nodetalk.Prelude.{◌≡◌, refl, true, false, List, [], ◌∷◌, some}
use nodetalk.Prelude.Dict
use nodetalk.Prelude.IdSet
use nodetalk.Avatars.{
  Cache, load_avatar, db_answered, use_file, server_answered, invalidate_avatar, show,
  detect_mime_type,
}
use nodetalk.Avatars.Live.{holds}
use nodetalk.Avatars.Shown.{
  Step, loads, db_answers, server_answers, invalidates, take, take_all, shown_urls_live,
}

abbrev cache : Cache
cache = record {
  memory_cache = [];
  in_flight_promises = [];
  has_db = true;
  files = [];
  next_url = 7;
  made = [];
  revoked = [];
  requested = [];
}

-- A picture is loaded, invalidated, and loaded again from the server.
abbrev steps : List Step
steps =
    loads "a"
    ∷ db_answers "a"
    ∷ server_answers "a" (some (255 ∷ 216 ∷ 255 ∷ []))
    ∷ invalidates "a"
    ∷ loads "a"
    ∷ db_answers "a"
    ∷ server_answers "a" (some (137 ∷ 80 ∷ 78 ∷ 71 ∷ []))
    ∷ []

shown_urls_live_example : holds 8 (take_all (λ bytes. "") steps cache).revoked ≡ false
unfolding Dict.lookup Dict.insert Dict.erase take_all take load_avatar db_answered use_file
    server_answered invalidate_avatar show detect_mime_type IdSet.has IdSet.add IdSet.delete
shown_urls_live_example = shown_urls_live (λ bytes. "") steps "a" 8 cache refl
