-- ===== src/Api/Types.antt =====
-- Requests, query keys and the two kinds of hooks, as @tanstack/react-query takes them.
use haul.Base.{ℕ, Bool, Option, List, String}

-- The values in the bodies of requests.
pub data Json : Type 0 where
  text : String → Json
  texts : List String → Json
  number : ℕ → Json
  flag : Bool → Json
  null : Json
  object : List (String × String) → Json

pub data Method : Type 0 where
  get post put delete : Method

pub record Request : Type 0 where
  pub method : Method
  pub path : String
  pub body : Option (List (String × Json))

-- A part of a query key: a text, a number, or an object of named values.
pub data KeyPart : Type 0 where
  part : String → KeyPart
  count : ℕ → KeyPart
  fields : List (String × Json) → KeyPart

abbrev pub Key : Type 0
Key = List KeyPart

-- `useQuery`: the key, the path that is fetched, whether it is enabled, and the polling interval.
pub record Query : Type 0 where
  pub key : Key
  pub path : String
  pub enabled : Bool
  pub interval : Option ℕ

-- `useMutation`: the request, and the keys that are invalidated on success.
pub record Mutation : Type 0 where
  pub request : Request
  pub stale : List Key
