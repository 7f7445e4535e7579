-- ===== src/Contact/Request/Once.antt =====
-- A request that is sent again.
use openqqwaifu.Prelude.{
  ℕ, ◌≡◌, refl, ap, String, Bool, true, ◌&&◌, some, str_eq, eq_iff, find, &&_parts, update_where,
  false,
}
use openqqwaifu.Result.{
  ok, ◌>>=◌, Ensures, Ensures-ok, Ensures-bind, Ensures-option, Ensures-require, Ensures-imp,
}
use openqqwaifu.Platform.{Platform}
use openqqwaifu.Tables.{Policy}
use openqqwaifu.Contact.Decision.{policy}
use openqqwaifu.Contact.Request.{
  Payload, Encoding, Request, Response, Desk, text, identity, is_request, repeat, admit_change,
  revise, store_policy, apply_request,
}

-- The answer to the request is on record.
record IsRecorded (cid request_id serialized actor : String) (response : Response) (desk : Desk)
    : Type 0 where
  row : Request
  found : find (is_request cid request_id) desk.requests ≡ some row
  same_payload : row.payload_json ≡ serialized
  same_actor : row.actor ≡ actor
  answered : (record (row.response) { duplicate = true }) ≡ record response { duplicate = true }

repeat-IsRecorded :
    (os : Platform) (enc : Encoding) (payload : Payload) (actor actor' : String) (later : ℕ)
    (user : Bool) (cid request_id : String) (response : Response) (desk : Desk)
    → identity payload.conversation_id ≡ ok cid
    → identity payload.request_id ≡ ok request_id
    → identity (text actor) ≡ ok actor'
    → IsRecorded cid request_id (enc.json_text payload) actor response desk
    → apply_request os enc payload actor later user desk
      ≡ ok (desk, record response { duplicate = true })
unfolding apply_request repeat
repeat-IsRecorded os enc payload actor actor' later user cid request_id response desk c r a h =
    let same : str_eq h.row.payload_json (enc.json_text payload) ≡ true =
      (eq_iff h.row.payload_json (enc.json_text payload)).1 h.same_payload in
    let mine : str_eq h.row.actor actor ≡ true = (eq_iff h.row.actor actor).1 h.same_actor in
    rw (c, r, a, ◌>>=◌, h.found, same, mine) (ap (λ x. ok (desk, x)) h.answered)

store_policy-IsRecorded :
    (cid request_id serialized actor : String) (now : ℕ) (revised : Policy) (desk : Desk)
    → Ensures
        (λ (d : Desk × Response). IsRecorded cid request_id serialized actor d.1 d.0)
        (store_policy cid request_id serialized actor now revised desk)
unfolding store_policy
store_policy-IsRecorded cid request_id serialized actor now revised desk =
    Ensures-bind (λ (d : Desk × Response). IsRecorded cid request_id serialized actor d.1 d.0)
      (policy
        (record (desk.db) {
          policies =
              update_where (λ p. str_eq p.conversation_id cid) (λ _. revised) desk.db.policies;
        })
        cid)
      _
      λ saved _.
        let response : Response = record { policy = saved; duplicate = false } in
        record {
          row = record {
            conversation_id = cid;
            request_id = request_id;
            payload_json = serialized;
            actor = actor;
            response = response;
            created_at = now;
          };
          found = rw ((eq_iff cid cid).1 refl, (eq_iff request_id request_id).1 refl) refl;
          same_payload = refl;
          same_actor = refl;
          answered = refl;
        }

-- A request that succeeded, sent again by the same actor at any time, changes nothing and is answered
-- the same way, marked as a duplicate.
pub apply_request_once :
    (os : Platform) (enc : Encoding) (payload : Payload) (actor : String) (now later : ℕ)
    (user : Bool) (desk desk' : Desk) (response : Response)
    → apply_request os enc payload actor now user desk ≡ ok (desk', response)
    → apply_request os enc payload actor later user desk'
      ≡ ok (desk', record response { duplicate = true })
unfolding apply_request repeat
apply_request_once os enc payload actor now later user desk desk' response h =
    let Q = λ (d : Desk × Response).
      apply_request os enc payload actor later user d.0
      ≡ ok (d.0, record (d.1) { duplicate = true }) in
    let again = repeat-IsRecorded os enc payload actor in
    Ensures-ok Q (apply_request os enc payload actor now user desk)
      (Ensures-bind Q (identity payload.conversation_id) _ λ cid c.
        Ensures-bind Q (identity payload.request_id) _ λ request_id r.
          Ensures-bind Q (identity (text actor)) _ λ actor' a.
            Ensures-option Q (find (is_request cid request_id) desk.requests) _ _
              (λ _. Ensures-bind Q (admit_change os enc payload user cid desk) _ λ admitted _.
                Ensures-bind Q (revise os admitted.0 admitted.1 admitted.2) _ λ revised _.
                  Ensures-imp
                    (λ (d : Desk × Response).
                      IsRecorded cid request_id (enc.json_text payload) actor d.1 d.0)
                    Q (λ d recorded. again actor' later user cid request_id d.1 d.0 c r a recorded)
                    _
                    (store_policy-IsRecorded cid request_id (enc.json_text payload) actor now
                      revised desk))
              (λ old found.
                Ensures-require Q
                  (str_eq old.payload_json (enc.json_text payload) && str_eq old.actor actor) _ _
                  λ same.
                    let parts =
                      &&_parts (str_eq old.payload_json (enc.json_text payload))
                        (str_eq old.actor actor) same in
                    again actor' later user cid request_id
                      (record (old.response) { duplicate = true }) desk c r a
                      (record {
                        row = old;
                        found = found;
                        same_payload = (eq_iff old.payload_json (enc.json_text payload)).0 parts.0;
                        same_actor = (eq_iff old.actor actor).0 parts.1;
                        answered = refl;
                      })))
      h
