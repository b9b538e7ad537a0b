-- ===== src/Application.antt =====
-- app/main.py: the middleware `request_id` and the handler of domain errors. The responses of
-- Starlette are a parameter, with the assignment of a header; so are Python's table of white space
-- and the text of a fresh uuid4. What the logger is told is a value.
use test_exchange_backend.Base.{
  ℕ, zero, suc, ◌≤◌, String, Bool, Option, none, some, List, [], ◌∷◌, ◌≡◌, refl, length, arith,
  take,
}
use test_exchange_backend.Session.{Error}
use test_exchange_backend.Quality.Texts.{strip}

unfoldable pub nonempty_or : List ℕ → List ℕ → List ℕ
nonempty_or [] fresh = fresh
nonempty_or (c ∷ text) fresh = c ∷ text

module _ (is_space : ℕ → Bool) where
  -- `request.headers.get("X-Request-ID", "").strip()[:100] or str(uuid4())`
  unfoldable pub request_identifier : Option (List ℕ) → List ℕ → List ℕ
  unfolding nonempty_or
  request_identifier none fresh = nonempty_or (take 100 (strip is_space [])) fresh
  request_identifier (some header) fresh = nonempty_or (take 100 (strip is_space header)) fresh

-- an exception of the application goes on, with what has been logged
pub data Served (R : Type 0) : Type 0 where
  responded : R → Served R
  raised : List ℕ → String → Served R

module _ {R : Type 0} (set_header : String → List ℕ → R → R) where
  -- the response of the application, or none where it raised an exception
  unfoldable pub label : List ℕ → String → Option R → Served R
  label identifier path (some response) = responded (set_header "X-Request-ID" identifier response)
  label identifier path none = raised identifier path

  -- the middleware; the application reads the identifier in the request's state
  unfoldable pub request_id :
      (ℕ → Bool) → Option (List ℕ) → List ℕ → String → (List ℕ → Option R) → Served R
  unfolding label request_identifier
  request_id is_space header fresh path call_next =
      let identifier = request_identifier is_space header fresh in
      label identifier path (call_next identifier)

-- a domain error is answered; the other exceptions are not this handler's
unfoldable pub domain_error_handler : {R : Type 0} → (ℕ → String → R) → Error → Option R
domain_error_handler json_response (Error.domain_error detail status_code) =
    some (json_response status_code detail)
domain_error_handler json_response _ = none

-- how long an identifier is
abbrev IsShort : List ℕ → Type 0
IsShort identifier = (1 ≤ length identifier) × (length identifier ≤ 100)

module _ {R : Type 0} (set_header : String → List ℕ → R → R) (call_next : List ℕ → Option R) where
  abbrev pub IsLabelled : Served R → Type 0
  IsLabelled (responded r) =
      (identifier : List ℕ) × ((inner : R) × ((call_next identifier ≡ some inner)
          × ((r ≡ set_header "X-Request-ID" identifier inner) × IsShort identifier)))
  IsLabelled (raised identifier path) = (call_next identifier ≡ none) × IsShort identifier

length-take : (n : ℕ) (text : List ℕ) → length (take n text) ≤ n
unfolding take
length-take zero text = omega arith
length-take (suc n) [] = omega arith
length-take (suc n) (c ∷ text) = let e = length-take n text in omega arith

nonempty_or-IsShort :
    (text fresh : List ℕ) → length text ≤ 100 → IsShort fresh → IsShort (nonempty_or text fresh)
unfolding nonempty_or
nonempty_or-IsShort [] fresh short h = h
nonempty_or-IsShort (c ∷ text) fresh short h = (omega arith, short)

request_identifier-IsShort :
    (is_space : ℕ → Bool) (header : Option (List ℕ)) (fresh : List ℕ)
    → IsShort fresh
    → IsShort (request_identifier is_space header fresh)
unfolding request_identifier
request_identifier-IsShort is_space none fresh h =
    nonempty_or-IsShort _ fresh (length-take 100 (strip is_space [])) h
request_identifier-IsShort is_space (some header) fresh h =
    nonempty_or-IsShort _ fresh (length-take 100 (strip is_space header)) h

label-IsLabelled :
    {R : Type 0} (set_header : String → List ℕ → R → R) (call_next : List ℕ → Option R)
    (identifier : List ℕ) (path : String) (response : Option R)
    → call_next identifier ≡ response
    → IsShort identifier
    → IsLabelled set_header call_next (label set_header identifier path response)
unfolding label
label-IsLabelled set_header call_next identifier path none e h = (e, h)
label-IsLabelled set_header call_next identifier path (some r) e h =
    (identifier, (r, (e, (refl, h))))

-- Each request has one identifier, of 1 to 100 code points where a fresh one has as many: the
-- application reads it, and its response gets it in the header X-Request-ID; where the application
-- raises an exception, this identifier is logged.
pub request_id-IsLabelled :
    {R : Type 0} (is_space : ℕ → Bool) (set_header : String → List ℕ → R → R)
    (header : Option (List ℕ)) (fresh : List ℕ) (path : String) (call_next : List ℕ → Option R)
    → IsShort fresh
    → IsLabelled set_header call_next (request_id set_header is_space header fresh path call_next)
unfolding request_id
request_id-IsLabelled is_space set_header header fresh path call_next h =
    let identifier = request_identifier is_space header fresh in
    label-IsLabelled set_header call_next identifier path (call_next identifier) refl
      (request_identifier-IsShort is_space header fresh h)
