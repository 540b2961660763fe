-- ===== src/Api/Fetch.antt =====
-- web/ui/src/shared/api.ts: apiFetch. `fetch` gives a response, or fails with a message. A body is read as text and parsed by the parameter `json`
-- (`JSON.parse`), which fails with a message.
use haul.Base.{
  ℕ, ◌≡◌, arith, ◌||◌, Bool, true, Option, none, some, if◌then◌else◌, ◌==◌, leb, ltb, ◌&&◌, String,
  str_eq,
}

pub record ApiError : Type 0 where
  pub status : ℕ
  pub title : String
  pub detail : Option String

-- The body of an error, as far as the code reads it.
pub record Problem : Type 0 where
  pub first_error : Option String
  pub detail : Option String
  pub title : Option String
  pub error : Option String

pub record Response : Type 0 where
  pub status : ℕ
  pub status_text : String
  pub body : String

-- What `fetch` does.
pub data Fetched : Type 0 where
  response : Response → Fetched
  rejected : String → Fetched

-- A rejected promise carries an `APIError`, the failure of `JSON.parse`, or that of `fetch`.
pub data Outcome (T : Type 0) : Type 0 where
  value : T → Outcome T
  empty : Outcome T
  api_error : ApiError → Outcome T
  parse_error : Outcome T
  fetch_error : String → Outcome T

-- `a ?? b`
abbrev pub or_else : Option String → Option String → Option String
or_else none b = b
or_else (some a) b = some a

abbrev pub or_text : Option String → String → String
or_text none d = d
or_text (some a) d = a

-- `res.ok`
abbrev pub is_ok : ℕ → Bool
is_ok status = leb 200 status && ltb status 300

module _ {T : Type 0} (json : String → Option T) (problem : String → Option Problem) where
  unfoldable pub error_of : Response → ApiError
  error_of res = elim (problem res.body) [
    | none ↦ record { status = res.status; title = res.status_text; detail = none }
    | some b ↦ record {
      status = res.status;
      title =
          or_text (or_else b.first_error (or_else b.detail (or_else b.title b.error)))
            res.status_text;
      detail = or_else b.first_error b.detail;
    }
  ]

  unfoldable pub parse : String → Outcome T
  parse text = elim (json text) [ none ↦ parse_error | some v ↦ value v ]

  unfoldable pub api_fetch : Fetched → Outcome T
  unfolding error_of parse
  api_fetch (rejected message) = fetch_error message
  api_fetch (response res) =
      if is_ok res.status
      then (if res.status == 204
          then empty
          else if res.status == 202
          then (if str_eq res.body "" then empty else parse res.body)
          else parse res.body)
      else api_error (error_of res)

  -- A success never yields an API error. It yields nothing for status 204 and for an empty body of
  -- status 202, and otherwise the parsed body, or a parse error where the body is not JSON.
  pub api_fetch_ok :
      (res : Response)
      → is_ok res.status ≡ true
      → api_fetch (response res) ≡ (
          if res.status == 204 || (res.status == 202 && str_eq res.body "")
          then empty
          else elim (json res.body) [ none ↦ parse_error | some v ↦ value v ])
  unfolding api_fetch
  api_fetch_ok res h = ground arith
