-- ===== src/Server/Unchanged.antt =====
-- The headers that a client gets from `handleOpenAIProxy` of server/server.go.
use llm_bridge.Backend.Headers.{
  values_of, joined, set_header, add_values, copy_headers, lookup-add_values_self,
  lookup-add_values_ne,
}
use llm_bridge.Backend.Forwarded.{values-copy_headers}
use llm_bridge.Backend.Proxy.{Request, Response, answered}
use llm_bridge.Server.Relay.{relayed, content_type, relay_headers, first_headers, relay}
use llm_bridge.Base.{
  String, ◌≡◌, refl, sym, ap, subst, ◌∙◌, ◌≢◌, inl, inr, Bool, true, false, ◌&&◌, Option, none,
  some, List, [], ◌∷◌, ◌++◌, append-nil, arith, str_eq, str_eq-cases, if◌then◌else◌, Bool-cases,
  Dict, lookup, lookup-insert, UniqueKeys,
}

-- Every key has a value, as net/http reads headers.
abbrev pub HasValues : Dict (List String) → Type 0
HasValues [] = Unit
HasValues ((key, vals) ∷ headers) = (vals ≢ []) × HasValues headers

-- The last content type that was set: the response's first, if it has one.
abbrev pub first_or : List String → Option (List String) → List String
first_or before none = before
first_or before (some []) = before
first_or before (some (v ∷ vals)) = v ∷ []

abbrev pub streamed_value : String → Dict (List String) → List String
streamed_value j headers =
    if str_eq content_type j
    then first_or ("text/event-stream" ∷ []) (lookup j headers)
    else values_of (lookup j headers)

relay_headers-plain :
    (headers h : Dict (List String)) → relay_headers false headers h ≡ some (copy_headers headers h)
unfolding relay_headers copy_headers
relay_headers-plain [] h = refl
relay_headers-plain ((key, vals) ∷ headers) h = elim (Bool-cases (str_eq key content_type)) [
  | inl e ↦ rw e (relay_headers-plain headers (add_values key vals h))
  | inr e ↦ rw e (relay_headers-plain headers (add_values key vals h))
]

-- The values of a key in a stream, from those that were there and those of the response.
abbrev then_streamed : Bool → List String → Option (List String) → List String
then_streamed is_type before found =
    if is_type then first_or before found else before ++ values_of found

values-joined :
    (before : Option (List String)) (vals : List String)
    → values_of (joined before vals) ≡ values_of before ++ vals
values-joined before [] = sym (append-nil (values_of before))
values-joined before (v ∷ vals) = refl

then_streamed-none : (b : Bool) (before : List String) → then_streamed b before none ≡ before
then_streamed-none true before = refl
then_streamed-none false before = append-nil before

values-set_header :
    (key v j : String) (h : Dict (List String))
    → values_of (lookup j (set_header key v h))
      ≡ (if str_eq key j then v ∷ [] else values_of (lookup j h))
unfolding set_header
values-set_header key v j h = ground (arith, lookup-insert key j (v ∷ []) h)

-- One header of the response, in a stream.
then_streamed-set_header :
    (v : String) (vals : List String) (headers h : Dict (List String)) (j : String)
    → lookup content_type headers ≡ none
    → then_streamed
        (str_eq content_type j)
        (values_of (lookup j (set_header content_type v h)))
        (lookup j headers)
      ≡ then_streamed
          (str_eq content_type j)
          (values_of (lookup j h))
          (if str_eq content_type j then some (v ∷ vals) else lookup j headers)
then_streamed-set_header v vals headers h j new = elim (str_eq-cases content_type j) [
  | inl (t, e) ↦
      let gone : lookup j headers ≡ none = subst (λ k. lookup k headers ≡ none) e new in
      let now : values_of (lookup j (set_header content_type v h)) ≡ v ∷ [] =
        values-set_header content_type v j h ∙ rw t refl in
      rw (t, gone, now)
  | inr (t, e) ↦
      let now : values_of (lookup j (set_header content_type v h)) ≡ values_of (lookup j h) =
        values-set_header content_type v j h ∙ rw t refl in
      rw (t, now)
]

then_streamed-add_values :
    (key : String) (vals : List String) (headers h : Dict (List String)) (j : String)
    → key ≢ content_type
    → lookup key headers ≡ none
    → then_streamed
        (str_eq content_type j)
        (values_of (lookup j (add_values key vals h)))
        (lookup j headers)
      ≡ then_streamed
          (str_eq content_type j)
          (values_of (lookup j h))
          (if str_eq key j then some vals else lookup j headers)
then_streamed-add_values key vals headers h j other new = elim (str_eq-cases key j) [
  | inl (t, e) ↦
      let gone : lookup j headers ≡ none = subst (λ k. lookup k headers ≡ none) e new in
      let plain : str_eq content_type j ≡ false = elim (str_eq-cases content_type j) [
        | inl (k, q) ↦ absurd (other (e ∙ sym q))
        | inr (k, q) ↦ k
      ] in
      let now : values_of (lookup j (add_values key vals h)) ≡ values_of (lookup j h) ++ vals =
        subst (λ k. values_of (lookup k (add_values key vals h)) ≡ values_of (lookup k h) ++ vals) e
          (ap values_of (lookup-add_values_self key vals h) ∙ values-joined (lookup key h) vals) in
      rw (t, gone, plain, now) (append-nil _)
  | inr (t, e) ↦ rw (t, lookup-add_values_ne key j vals h t)
]

relay_headers-streamed :
    (headers h : Dict (List String))
    → HasValues headers
    → UniqueKeys headers
    → (h' : Dict (List String)) × (relay_headers true headers h ≡ some h')
      × ((j : String)
          → values_of (lookup j h')
            ≡ then_streamed (str_eq content_type j) (values_of (lookup j h)) (lookup j headers))
unfolding relay_headers lookup
relay_headers-streamed [] h v u =
    (h, refl, λ j. sym (then_streamed-none (str_eq content_type j) (values_of (lookup j h))))
relay_headers-streamed ((key, []) ∷ headers) h (v, vs) (new, u) = absurd (v refl)
relay_headers-streamed ((key, val ∷ vals) ∷ headers) h (v, vs) (new, u) =
    elim (str_eq-cases key content_type) [
      | inl (t, e) ↦
          let (h', r, f) = relay_headers-streamed headers (set_header key val h) vs u in
          (
            h',
            rw t r,
            λ j.
                f j
                ∙ subst
                    (λ k.
                      then_streamed (str_eq content_type j)
                        (values_of (lookup j (set_header k val h))) (lookup j headers)
                      ≡ then_streamed (str_eq content_type j) (values_of (lookup j h))
                          (if str_eq k j then some (val ∷ vals) else lookup j headers))
                    (sym e)
                    (then_streamed-set_header val vals headers h j
                      (subst (λ k. lookup k headers ≡ none) e new)),
          )
      | inr (t, e) ↦
          let (h', r, f) = relay_headers-streamed headers (add_values key (val ∷ vals) h) vs u in
          (h', rw t r, λ j. f j ∙ then_streamed-add_values key (val ∷ vals) headers h j e new)
    ]

started_stream :
    (j : String) (headers : Dict (List String))
    → then_streamed
        (str_eq content_type j)
        (values_of (lookup j (set_header content_type "text/event-stream" [])))
        (lookup j headers)
      ≡ streamed_value j headers
unfolding lookup
started_stream j headers =
    let now = values-set_header content_type "text/event-stream" j [] in
    elim (Bool-cases (str_eq content_type j)) [
      | inl t ↦ rw t (ap (λ b. first_or b (lookup j headers)) (now ∙ rw t refl))
      | inr t ↦
          let bare : values_of (lookup j (set_header content_type "text/event-stream" [])) ≡ [] =
            now ∙ rw t refl in
          rw (t, bare)
    ]

-- What the client is sent, when the exchange has its response.
abbrev pub passed_on : Bool → String → Dict (List String) → List String
passed_on streamed j headers =
    if streamed then streamed_value j headers else values_of (lookup j headers)

-- A response is passed on as it is: its status, its body, and for every header its values in their
-- order. In a stream, that is where the endpoint looks at the flag and the body sets it, the content
-- type is the first one of the response, or text/event-stream if it has none. The relay never runs
-- out of values.
pub relay-answered :
    (check_stream stream : Bool) (req : Request) (resp : Response)
    → HasValues resp.headers
    → UniqueKeys resp.headers
    → (headers : Dict (List String)) × (relay check_stream stream (answered req resp)
        ≡ relayed (record { status = resp.status; headers = headers; body = resp.body }))
      × ((j : String)
          → values_of (lookup j headers) ≡ passed_on (check_stream && stream) j resp.headers)
unfolding relay first_headers lookup
relay-answered check_stream stream req resp v u = elim (Bool-cases (check_stream && stream)) [
  | inr e ↦ (
    copy_headers resp.headers [],
    rw (e, relay_headers-plain resp.headers []) refl,
    λ j. rw e (values-copy_headers resp.headers j u),
  )
  | inl e ↦
      let start = set_header content_type "text/event-stream" [] in
      let (h, r, f) = relay_headers-streamed resp.headers start v u in
      (h, rw (e, r) refl, λ j. f j ∙ rw e (started_stream j resp.headers))
]
