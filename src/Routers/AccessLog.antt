-- ===== src/Routers/AccessLog.antt =====
-- routers/middleware.go: AccessLogMiddleware. The dump of a request, the UUID and the next handler are
-- arguments; the time that a request took is left out of its entry.
use go_websocket.Prelude.{
  ℕ, ◌≡◌, refl, false, ◌&&◌, Option, none, some, List, [], ◌∷◌, ◌++◌, arith, ◌==◌, if◌then◌else◌,
  Bool-cases, Option-cases, inl, inr, append_assoc,
}
use go_websocket.Prelude.Text.{Str, str_eq, Free}

-- strings.Replace of each pair of two bytes by a space.
unfoldable pub replace_pair : ℕ → ℕ → Str → Str
replace_pair a b [] = []
replace_pair a b (c ∷ []) = c ∷ []
replace_pair a b (c ∷ d ∷ s) =
    let replaced = b' ' ∷ replace_pair a b s in
    let kept = c ∷ replace_pair a b (d ∷ s) in if c == a && d == b then replaced else kept

-- And of each byte.
unfoldable pub replace_byte : ℕ → Str → Str
replace_byte a [] = []
replace_byte a (c ∷ s) = (if c == a then b' ' else c) ∷ replace_byte a s

-- The request in one line: "\r\n" and then "\n" are replaced.
unfoldable pub one_line : Str → Str
unfolding replace_pair replace_byte
one_line dump = replace_byte 10 (replace_pair 13 10 dump)

pub record Request : Type 0 where
  pub trace_id : Str
  pub dump : Str
  pub method : Str
  pub request_uri : Str
  pub remote_addr : Str

pub data Entry : Type 0 where
  request_entry : Str → Str → Entry
  access_entry : Str → Str → Str → Str → Entry

abbrev pub trace_of : Str → Request → Str
trace_of uuid r = if str_eq r.trace_id [] then uuid else r.trace_id

-- AccessLogMiddleware: the state after the next handler, and the log; `none` is a panic of the next
-- handler, which leaves the first entry.
unfoldable pub access_log {ℓ} :
    {W : Type ℓ} → Str → (Request → W → Option W) → Request → W → List Entry → Option W × List Entry
unfolding one_line
access_log uuid next r w log =
    let trace = trace_of uuid r in
    let begun = log ++ request_entry trace (one_line r.dump) ∷ [] in
    elim (next r w) [
      | none ↦ (none, begun)
      | some v ↦ (some v, begun ++ access_entry trace r.remote_addr r.method r.request_uri ∷ [])
    ]

replace_byte-Free : (a : ℕ) (s : Str) → (b' ' == a) ≡ false → Free a (replace_byte a s)
unfolding replace_byte
replace_byte-Free a [] h = tt
replace_byte-Free a (c ∷ s) h = elim (Bool-cases (c == a)) [
  | inl e ↦ rw e (h, replace_byte-Free a s h)
  | inr e ↦ rw e (e, replace_byte-Free a s h)
]

abbrev pub text_of : Entry → Str
text_of (request_entry trace text) = text
text_of (access_entry trace addr method uri) = []

-- The middleware does to the state what the next handler does, writes before it an entry that is one
-- line, with no line feed in it, and where the handler returns one more entry with the same trace
-- id; what the log had is kept.
pub access_log_lem {ℓ} :
    {W : Type ℓ} (uuid : Str) (next : Request → W → Option W) (r : Request) (w : W)
    (log : List Entry)
    → ((access_log uuid next r w log).0 ≡ next r w)
      × ((line : Str) × (Free 10 line)
          × ((access_log uuid next r w log).1
              ≡ log
                ++ request_entry (trace_of uuid r) line ∷ elim (next r w) [
                  | none ↦ []
                  | some v ↦
                      access_entry (trace_of uuid r) r.remote_addr r.method r.request_uri ∷ []
                ]))
unfolding access_log one_line
access_log_lem uuid next r w log = (
  ground arith,
  (
    one_line r.dump,
    replace_byte-Free 10 (replace_pair 13 10 r.dump) refl,
    elim (Option-cases (next r w)) [
      | inl e ↦ rw (e, access_log)
      | inr (v, e) ↦ rw (e, access_log) (append_assoc log _ _)
    ],
  ),
)
