-- ===== src/Schema.antt =====
-- The rows of the five tables (pkg/db/migrations) and the structs of internal/user/repository.go and
-- internal/tweet/repository.go that they are scanned into.
use mini_twitter.Common.{ℕ, String, Option, List, ℤ}

-- A uuid.UUID, as the 128-bit number that Postgres orders it by.
abbrev pub Uuid : Type 0
Uuid = ℕ

-- A time.Time, in nanoseconds.
abbrev pub Time : Type 0
Time = ℕ

-- A Go string where the code looks inside it: its bytes.
abbrev pub Bytes : Type 0
Bytes = List ℕ

pub record User : Type 0 where
  pub id : Uuid
  pub username : String
  pub email : String
  pub password_hash : String
  pub display_name : String
  pub bio : String
  pub follower_count : ℤ
  pub following_count : ℤ
  pub created_at : Time

pub record Tweet : Type 0 where
  pub id : Uuid
  pub user_id : Uuid
  pub content : Bytes
  pub like_count : ℤ
  pub reply_to_id : Option Uuid
  pub created_at : Time

pub record Follow : Type 0 where
  pub follower_id : Uuid
  pub followee_id : Uuid

pub record Like : Type 0 where
  pub user_id : Uuid
  pub tweet_id : Uuid

-- A row of like_count_pending.
pub record Pending : Type 0 where
  pub tweet_id : Uuid
  pub delta : ℤ
  pub created_at : Time

pub record Tables : Type 0 where
  pub users : List User
  pub tweets : List Tweet
  pub follows : List Follow
  pub likes : List Like
  pub pending : List Pending
