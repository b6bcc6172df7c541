-- ===== src/Server/Routes.antt =====
-- The routes of the HTTP servers of internal/server/server.go and internal/scheduler/scheduler.go, on Go's
-- `http.ServeMux` with patterns of a method and a whole path.
use regbot.Base.{Bool, ◌&&◌, ◌||◌, ℕ, List, [], ◌∷◌, ◌++◌, Str, codes, str_eq, any, if◌then◌else◌}

-- What a handler does: it answers with a status and a text, writes the metrics, or handles a run.
pub data Handler : Type 0 where
  answers : ℕ → Str → Handler
  writes_metrics : Handler
  handles_run : Handler

pub record Route : Type 0 where
  pub method : Str
  pub path : Str
  pub handler : Handler

abbrev pub get : Str → Handler → Route
get path handler = record { method = codes "GET"; path = path; handler = handler }

-- `healthHandler` of the scheduler; the server has the same routes in front.
abbrev pub health_routes : List Route
health_routes =
    get (codes "/healthz") (answers 200 (codes "ok" ++ (10 ∷ [])))
    ∷ get (codes "/readyz") (answers 200 (codes "ready" ++ (10 ∷ [])))
    ∷ get (codes "/metrics") writes_metrics
    ∷ []

abbrev pub server_routes : List Route
server_routes =
    health_routes
    ++ (record { method = codes "POST"; path = codes "/run"; handler = handles_run } ∷ [])

-- A route for `GET` takes `HEAD` too.
abbrev pub takes_method : Route → Str → Bool
takes_method r method =
    str_eq r.method method || (str_eq r.method (codes "GET") && str_eq method (codes "HEAD"))

abbrev pub unmatched : List Route → Str → Handler
unmatched routes path =
    if any (λ (r : Route). str_eq r.path path) routes
    then answers 405 (codes "Method Not Allowed" ++ (10 ∷ []))
    else answers 404 (codes "404 page not found" ++ (10 ∷ []))

abbrev pub handler_among : List Route → List Route → Str → Str → Handler
handler_among routes [] method path = unmatched routes path
handler_among routes (r ∷ rest) method path =
    let other = handler_among routes rest method path in
    if str_eq r.path path && takes_method r method then r.handler else other

-- The handler of a request.
unfoldable pub handler_of : List Route → Str → Str → Handler
handler_of routes = handler_among routes routes
