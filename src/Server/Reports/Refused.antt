-- ===== src/Server/Reports/Refused.antt =====
-- Which of the connector's own reports remotehub refuses (`checked_state` of
-- crates/server/src/api/connectors.rs).
use remotehub.Base.{
  ℕ, zero, suc, ◌≤◌, Bool, true, false, ◌&&◌, Option, List, [], ◌∷◌, ◌++◌, map, ltb, all, any,
  filter, length, arith, ◌≡◌, refl, ◌∙◌,
}
use remotehub.Base.Text.{Text}
use remotehub.Connector.Inventory.Defs.{Address}
use remotehub.Connector.Inventory.Written.{ports_text}
use remotehub.Connector.Access.Defs.{
  Time, Snapshot, device_until, open_devices, open_requests, is_some,
}
use remotehub.Connector.Requests.Defs.{Answer, take}
use remotehub.Connector.Agent.Report.{OpenDevice, max_listed, state, approved, open_device_of}
use remotehub.Server.Reports.{plain_text, max_text, checked_state}
use remotehub.Server.Reports.Taken.{is_taken, plain_device, checked_state-fits}

any-take-append :
    {A : Type 0} (p : A → Bool) (n : ℕ) (xs ys : List A)
    → length xs ≤ n
    → any p xs ≡ true
    → any p (take n (xs ++ ys)) ≡ true
any-take-append p zero [] ys l h = h
any-take-append p zero (x ∷ xs) ys l h = ground arith
any-take-append p (suc n) [] ys l h = ground (arith, h)
any-take-append p (suc n) (x ∷ xs) ys l h =
    ground (arith, h, any-take-append p n xs ys (omega (arith, l)))

any-mapped :
    {A B : Type 0} (p : B → Bool) (f : A → B) (q : A → Bool) (xs : List A)
    → any (λ x. q x && p (f x)) xs ≡ true
    → any p (map f (filter q xs)) ≡ true
any-mapped p f q [] h = h
any-mapped p f q (x ∷ xs) h = ground (arith, h, any-mapped p f q xs)

length-map : {A B : Type 0} (f : A → B) (xs : List A) → length (map f xs) ≡ length xs
length-map f [] = refl
length-map f (x ∷ xs) = omega (arith, length-map f xs)

long_texts : OpenDevice → Bool
long_texts d = ltb max_text (length d.ports)

long-all :
    (utc : Text → Option Text) (ds : List OpenDevice)
    → any long_texts ds ≡ true
    → all (plain_device utc) ds ≡ false
unfolding long_texts plain_text
long-all utc [] h = cc
long-all utc (d ∷ ds) h = ground (arith, h, long-all utc ds)

-- A device of the customer's list that is open, and whose ports are written with more than 200
-- characters, makes remotehub refuse the connector's whole report, whatever answers to requests and
-- whatever else is in it, while at most 1000 devices are open.
pub long_ports_refused :
    (utc : Text → Option Text) (format : Time → Option Text) (show_address : Address → Text)
    (s : Snapshot) (now : Time) (answers : List Answer)
    → any
        (λ d. is_some (device_until s d now) && ltb max_text (length (ports_text d.ports)))
        s.inventory.devices
      ≡ true
    → length (open_devices s now) ≤ max_listed
    → is_taken (checked_state utc (record (state format show_address s now) { answers = answers }))
      ≡ false
long_ports_refused utc format show_address s now answers h l =
    let r = state format show_address s now in
    let own = map (open_device_of format show_address s now) (open_devices s now) in
    let long : any long_texts r.devices ≡ true =
      unfold state long_texts in
      any-take-append long_texts max_listed own (approved format show_address (open_requests s now))
        (omega
          (arith, length-map (open_device_of format show_address s now) (open_devices s now), l))
        (unfold open_devices in
          any-mapped long_texts (open_device_of format show_address s now)
            (λ d. is_some (device_until s d now)) s.inventory.devices h) in
    checked_state-fits utc (record r { answers = answers })
    ∙ ground (arith, long-all utc r.devices long)
