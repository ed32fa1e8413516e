-- ===== src/Api.antt =====
-- client-web/src/types/api.ts: the messages and channels that the server sends. An optional field is
-- an `Option`; a `Record` is a `Dict`. A time stamp is a text, as in the source.
use nodetalk.Prelude.{ℕ, String, Bool, List, Option}
use nodetalk.Prelude.Dict.{Dict}

pub data MessageType : Type 0 where
  text file voice video : MessageType

pub data Delivery : Type 0 where
  sending failed : Delivery

pub record Message : Type 0 where
  pub id : String
  pub channel_id : String
  pub sender_id : String
  pub kind : MessageType
  pub ciphertext : String
  pub nonce : String
  pub compression : String
  pub sent_at : String
  pub edited_at : Option String
  pub reply_to_id : Option String
  pub pending : Option Delivery

pub record Channel : Type 0 where
  pub id : String
  pub name : String
  pub description : Option String
  pub avatar_id : Option String
  pub is_private : Bool
  pub invite_link : Option String
  pub creator_id : String
  pub user_role : ℕ
  pub members : List String
  pub member_names : Dict String
  pub member_avatars : Dict String
  pub member_domains : Dict String
  pub member_statuses : Dict String
  pub member_roles : Dict ℕ
  pub created_at : String
  pub unread_count : Option ℕ
  pub last_message_at : Option String
  pub last_message_ciphertext : Option String
  pub last_message_nonce : Option String
  pub last_message_type : Option MessageType
  pub last_message_sender_id : Option String
  pub last_message_id : Option String
  pub last_message_preview : Option String
