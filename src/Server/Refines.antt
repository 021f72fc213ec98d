-- ===== src/Server/Refines.antt =====
-- `HandleMessage` of libvirt-sim/internal/rpc/handlers.go on a call that changes a domain.
use mathlib.Core.Path.{subst}
use cirrus_sim.Server.Types.{
  Externals, Session, World, vir_err_no_domain, Stop, refused, refused_by_store, procedure_number,
}
use cirrus_sim.Libvirt.Store.{get_domain, get_host, domain_on}
use cirrus_sim.Server.Wire.{
  Lifecycle, Follows, code_of, events_of, operation, change, change-Follows, procedure_of,
  select-lifecycle, serve-change,
}
use cirrus_sim.Server.Parts.{read_domain_ref, store_call, always, reading}
use cirrus_sim.Rpc.Protocol.{Header, Message}
use cirrus_sim.Base.{String, ◌≡◌, Option, ◌++◌, arith, string_eq, ap, refl, ◌∙◌, some, none, sym}
use cirrus_sim.Libvirt.Types.{Store, Domain, Time, Error, Host, host_not_found, no_domain}
use cirrus_sim.Rpc.Words.{Bytes}
use cirrus_sim.Base.Exec.{Result, ok, ◌>>=◌, err, or_raise, bind-congr}
use cirrus_sim.Server.References.{IsReference, read_reference-encode_domain_ref}
use cirrus_sim.Server.Events.{encode_domain_ref}
use cirrus_sim.Rpc.Encoder.{new_encoder}
use cirrus_sim.Libvirt.Domains.{uuid_string}
use cirrus_sim.Server.Dispatch.{reply_to, handle_message, select, handled, serve}
use cirrus_sim.Base.Dict.{lookup}

pub get_domain-keeps :
    {R : Type 0} (host_id uuid : String) (s : Store R) → (get_domain host_id uuid s).1 ≡ s
unfolding get_domain get_host domain_on
get_domain-keeps {R = R} host_id uuid s = of (lookup host_id s.hosts)
  where
    of :
        (o : Option (Host R))
        → ((or_raise o host_not_found >>= λ h. or_raise (lookup uuid h.domains) no_domain) s).1 ≡ s
    of none = refl
    of (some host) = on_host (lookup uuid host.domains)
      where
        on_host : (o : Option Domain) → (or_raise {E = Error} o no_domain s).1 ≡ s
        on_host none = refl
        on_host (some d) = refl

module _ (X : Externals) (h : Session) where
  -- What is replied and left, by what the store has under the identifier: no domain, or `e`, on which
  -- the operation of the store is called.
  abbrev pub Answered :
      Lifecycle
      → Header
      → Time
      → World X.ratios.Ratio
      → Option Message × World X.ratios.Ratio
      → Result Error Domain
      → Type 0
  Answered c head now w (reply, w') (ok e) =
      (r : Result Stop Bytes) × (reply ≡ reply_to X h head r)
      × Follows X h (code_of c) e (events_of c)
          (operation X.ratios c h.host_id (uuid_string e.uuid) now w.store) w (r, w')
  Answered c head now w (reply, w') (err x) =
      (reply ≡ reply_to X h head (err (refused vir_err_no_domain (refused_by_store x)))) × (w' ≡ w)

  pub read_domain_ref-reference :
      (d : Domain) (rest : Bytes) (w : World X.ratios.Ratio)
      → IsReference X d
      → read_domain_ref h ((encode_domain_ref X d new_encoder).buf ++ rest) w
        ≡ store_call (always vir_err_no_domain) (get_domain h.host_id (uuid_string d.uuid)) w
  unfolding read_domain_ref reading
  read_domain_ref-reference d rest w is =
      ground (arith, read_reference-encode_domain_ref X d rest is)

  abbrev outcome :
      Lifecycle
      → Time
      → World X.ratios.Ratio
      → Result Error Domain
      → Result Stop Bytes × World X.ratios.Ratio
  outcome c now w (ok e) = change X h c now e w
  outcome c now w (err x) = (err (refused vir_err_no_domain (refused_by_store x)), w)

  outcome-Answered :
      (c : Lifecycle) (head : Header) (now : Time) (w : World X.ratios.Ratio)
      (o : Result Error Domain)
      → Answered c head now w (reply_to X h head (outcome c now w o).0, (outcome c now w o).1) o
  outcome-Answered c head now w (ok e) =
      ((change X h c now e w).0, refl, change-Follows X h c now e w)
  outcome-Answered c head now w (err x) = (refl, refl)

  found-outcome :
      (c : Lifecycle) (uuid : String) (now : Time) (w : World X.ratios.Ratio)
      (o : Result Error Domain)
      → get_domain h.host_id uuid w.store ≡ (o, w.store)
      → (store_call (always vir_err_no_domain) (get_domain h.host_id uuid) >>= change X h c now) w
        ≡ outcome c now w o
  unfolding store_call always
  found-outcome c uuid now w (ok e) found = ground (arith, found)
  found-outcome c uuid now w (err x) found = ground (arith, found)

  -- A call of create, destroy, shutdown, suspend, resume or undefine, whose body begins with a domain
  -- reference as `encodeDomainRef` writes it, does exactly what the method of the store does: it calls
  -- the method on the domain that the store has under the identifier, leaves the store that the method
  -- leaves, and replies with a success where the method succeeds, sending the call's events to the
  -- clients of the host; where the method fails, it replies with its error under the code of the call and
  -- sends none. Where the store has no such domain, the reply is `VirErrNoDomain` and nothing changes.
  pub handle_message-Answered :
      (c : Lifecycle) (head : Header) (d : Domain) (rest : Bytes) (now : Time)
      (w : World X.ratios.Ratio)
      → head.procedure ≡ procedure_number (procedure_of c)
      → IsReference X d
      → Answered c head now w
          (handle_message X h
            (record { header = head; body = (encode_domain_ref X d new_encoder).buf ++ rest })
            now
            w)
          (get_domain h.host_id (uuid_string d.uuid) w.store).0
  unfolding handle_message
  handle_message-Answered c head d rest now w called is =
      let uuid = uuid_string d.uuid in
      let body = (encode_domain_ref X d new_encoder).buf ++ rest in
      let o = (get_domain h.host_id uuid w.store).0 in
      let selected : select head.procedure handled ≡ procedure_of c =
        ap (λ n. select n handled) called ∙ select-lifecycle X h c in
      let served : serve X h (select head.procedure handled) body now w ≡ outcome c now w o =
        ap (λ p. serve X h p body now w) selected
        ∙ serve-change X h c body now w
        ∙ bind-congr (read_domain_ref h body)
            (store_call (always vir_err_no_domain) (get_domain h.host_id uuid)) (change X h c now) w
            (read_domain_ref-reference d rest w is)
        ∙ found-outcome c uuid now w o
            (ap (λ s. (o, s)) (get_domain-keeps h.host_id uuid w.store)) in
      subst (λ r. Answered c head now w (reply_to X h head r.0, r.1) o) (sym served)
        (outcome-Answered c head now w o)
