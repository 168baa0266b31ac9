-- ===== src/Http.antt =====
-- What the HTTP handlers answer: a status and a body. `json.NewDecoder` is modelled by what it yields,
-- a request or none, and `chi.URLParam` by the bytes of the segment.
use mini_twitter.Common.{ℕ, String, Error}

-- The `{"error": …}` object holds a fixed text, or `err.Error()`.
pub data Body (A : Type 0) : Type 0 where
  empty : Body A
  error_text : String → Body A
  error_of : Error → Body A
  json : A → Body A

pub record Response (A : Type 0) : Type 0 where
  pub status : ℕ
  pub body : Body A

module _ {A : Type 0} where
  -- writeJSON, and writeError with a text and with `err.Error()`.
  abbrev pub write_json : ℕ → A → Response A
  write_json status v = record { status = status; body = json v }

  abbrev pub write_error : ℕ → String → Response A
  write_error status text = record { status = status; body = error_text text }

  abbrev pub write_err : ℕ → Error → Response A
  write_err status e = record { status = status; body = error_of e }

  -- `w.WriteHeader(http.StatusNoContent)`
  abbrev pub no_content : Response A
  no_content = record { status = 204; body = empty }
