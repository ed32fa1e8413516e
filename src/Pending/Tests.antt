-- ===== src/Pending/Tests.antt =====
-- The theorems on the cached pages at concrete inputs.
use mathlib.Core.List.{reverse}
use nodetalk.Prelude.{
  ◌≡◌, refl, false, [], ◌∷◌, ◌++◌, Option, none, some, String, any, List, not, if◌then◌else◌,
}
use nodetalk.Api.{Delivery, text, sending}
use nodetalk.Pending.{Placeholder, Cached, add_pending_message, resolve_oldest_pending}
use nodetalk.Pending.Resolve.{all_messages, without_oldest, page_count, resolve_oldest_pending_lem}
use nodetalk.Pending.Order.{has_page, send_all, echoes, drop, echoes-send_all}

abbrev sent_message : String → Option Delivery → Placeholder
sent_message id pending = record {
  message = record {
    id = id;
    channel_id = "c";
    sender_id = "u";
    kind = text;
    ciphertext = "x";
    nonce = "n";
    compression = "none";
    sent_at = "2024-01-01";
    edited_at = none;
    reply_to_id = none;
    pending = pending;
  };
  text = none;
  has_retry = false;
}

abbrev message : String → Placeholder
message id = sent_message id none

abbrev placeholder : String → Placeholder
placeholder id = sent_message id (some sending)

abbrev cached : Option Cached
cached = some (record {
  pages = (placeholder "b" ∷ message "m" ∷ []) ∷ (placeholder "a" ∷ []) ∷ [];
  page_params = none ∷ [];
})

resolve_oldest_pending_lem_example :
    (all_messages (resolve_oldest_pending cached) ≡ without_oldest (all_messages cached))
    × (page_count (resolve_oldest_pending cached) ≡ page_count cached)
resolve_oldest_pending_lem_example = resolve_oldest_pending_lem cached

abbrev queued : List Placeholder
queued = placeholder "a" ∷ placeholder "b" ∷ []

echoes-send_all_example :
    ((add_pending_message (placeholder "c") none).1 ≡ not (has_page none))
    × (all_messages (echoes 1 (send_all queued none))
        ≡ (if has_page none then reverse (drop 1 queued) else []) ++ [])
    × ((if has_page none then none else send_all queued none) ≡ none)
unfolding any
echoes-send_all_example = echoes-send_all (placeholder "c") queued 1 none (refl, (refl, tt)) refl
