-- ===== src/Rpc/Heads/Address.antt =====
-- On evm-ingestion/rpc/heads.go, `NewHeadTracker`: the address of the WebSocket.
use l1_data_tools.Common.{
  ℕ, ◌≡◌, refl, ap, true, false, [], ◌∷◌, ◌++◌, some, arith, Bytes, codes, All, ◌==◌,
}
use l1_data_tools.Rpc.Heads.{has_prefix, contains, replace_first, ws_url}

-- A text that does not hold `old` is not changed.
replace_first_absent : (old new s : Bytes) → contains old s ≡ false → replace_first old new s ≡ s
unfolding replace_first contains
replace_first_absent old new [] h = refl
replace_first_absent old new (c ∷ s) h =
    let not_here : has_prefix old (c ∷ s) ≡ false = ground arith in
    let not_later : contains old s ≡ false = ground arith in
    rw not_here (ap (λ x. c ∷ x) (replace_first_absent old new s not_later))

abbrev NoSlash : Bytes → Type 0
NoSlash = All (λ c. (c == b'/') ≡ false)

slash_first :
    (c : ℕ) (s old : Bytes) → (c == b'/') ≡ false → has_prefix (b'/' ∷ old) (c ∷ s) ≡ false
unfolding has_prefix
slash_first c s old h = ground arith

-- The first slash of the text is where `/rpc` begins.
replace_rpc :
    (host path : Bytes)
    → NoSlash host
    → replace_first (codes "/rpc") (codes "/ws") (host ++ codes "/rpc" ++ path)
      ≡ host ++ codes "/ws" ++ path
unfolding replace_first
replace_rpc [] path h = unfold has_prefix in refl
replace_rpc (c ∷ host) path (h, hs) =
    rw (slash_first c (host ++ codes "/rpc" ++ path) (codes "rpc") h)
      (ap (λ x. c ∷ x) (replace_rpc host path hs))

contains_rpc : (host path : Bytes) → contains (codes "/rpc") (host ++ codes "/rpc" ++ path) ≡ true
unfolding contains
contains_rpc [] path = unfold has_prefix in refl
contains_rpc (c ∷ host) path = ground (arith, contains_rpc host path)

not_rpc_long :
    (host path : Bytes)
    → has_prefix (codes "rpc") host ≡ false
    → has_prefix (codes "rpc") (host ++ codes "/rpc" ++ path) ≡ false
unfolding has_prefix
not_rpc_long [] path h = refl
not_rpc_long (a ∷ []) path h = ground arith
not_rpc_long (a ∷ b ∷ []) path h = ground arith
not_rpc_long (a ∷ b ∷ c ∷ host) path h = ground arith

-- The address keeps its host and its path but for `/rpc`, which becomes `/ws`, and its scheme turns
-- from `http` to `ws` and from `https` to `wss`: for a host with no slash that does not begin with
-- `rpc`, where no other scheme stands in the rest of the address.
pub ws_url_lem :
    (host path : Bytes)
    → NoSlash host
    → has_prefix (codes "rpc") host ≡ false
    → contains (codes "http://") (host ++ codes "/ws" ++ path) ≡ false
    → contains (codes "https://") (host ++ codes "/ws" ++ path) ≡ false
    → (ws_url (codes "http://" ++ host ++ codes "/rpc" ++ path)
        ≡ some (codes "ws://" ++ host ++ codes "/ws" ++ path))
      × (ws_url (codes "https://" ++ host ++ codes "/rpc" ++ path)
          ≡ some (codes "wss://" ++ host ++ codes "/ws" ++ path))
unfolding ws_url
ws_url_lem host path hs not_rpc no_http no_https =
    unfold replace_first contains has_prefix in
    rw
      (
        not_rpc_long host path not_rpc,
        replace_rpc host path hs,
        contains_rpc host path,
        replace_first_absent (codes "http://") (codes "ws://") (host ++ codes "/ws" ++ path)
            no_http,
        replace_first_absent (codes "https://") (codes "wss://") (host ++ codes "/ws" ++ path)
            no_https,
      )
      (refl, refl)

-- A host that begins with `rpc` is itself taken for the path: the address has the host `ws...`, and
-- its path stays as it was. The rest of the address holds no other scheme.
pub ws_url-rpc_host :
    (rest : Bytes)
    → contains (codes "http://") rest ≡ false
    → contains (codes "https://") rest ≡ false
    → (ws_url (codes "http://rpc" ++ rest) ≡ some (codes "ws://ws" ++ rest))
      × (ws_url (codes "https://rpc" ++ rest) ≡ some (codes "wss://ws" ++ rest))
unfolding ws_url
ws_url-rpc_host rest no_http no_https =
    unfold replace_first contains has_prefix in
    rw
      (
        replace_first_absent (codes "http://") (codes "ws://") rest no_http,
        replace_first_absent (codes "https://") (codes "wss://") rest no_https,
      )
      (refl, refl)
