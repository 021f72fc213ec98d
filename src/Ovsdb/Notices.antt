-- ===== src/Ovsdb/Notices.antt =====
-- Which notices the monitors of ovn-sim/internal/ovsdb/monitor.go are sent.
use cirrus_sim.Base.{
  refl, [], ◌∷◌, ◌++◌, string_eq, arith, str_iff, Bool, String, ◌≡◌, ◌==◌, List, Option, some, ◌&&◌,
  keep_if, none, false, Bool-cases, inl, inr, sym,
}
use cirrus_sim.Base.Dict.{lookup, IsMap}
use cirrus_sim.Base.ListLaws.{append_nil}
use cirrus_sim.Ovsdb.Monitor.{
  MonitorRequest, MonitorRegistration, ClientMonitor, MonitorManager, Notice, RowUpdate, notice_of,
  notify, notify_client,
}

module _ {Φ : Type 0} where
  abbrev pub is_for : String → String → Notice Φ → Bool
  is_for client monitor n = (n.client == client) && (n.monitor == monitor)

  keep_if-append :
      (p : Notice Φ → Bool) (xs ys : List (Notice Φ))
      → keep_if p (xs ++ ys) ≡ keep_if p xs ++ keep_if p ys
  keep_if-append p [] ys = refl
  keep_if-append p (x ∷ xs) ys = ground (arith, keep_if-append p xs ys)

  module _ (c m table uuid : String) (update : MonitorRequest → RowUpdate Φ) where
    -- what a monitor is to be sent
    abbrev pub due : Option MonitorRegistration → List (Notice Φ)
    due none = []
    due (some reg) = notice_of c m table uuid update (lookup table reg)

    abbrev pub due_client : Option ClientMonitor → List (Notice Φ)
    due_client none = []
    due_client (some regs) = due (lookup m regs)

    other_notice :
        (client monitor : String) (o : Option MonitorRequest)
        → ((client == c) && (monitor == m)) ≡ false
        → keep_if (is_for c m) (notice_of client monitor table uuid update o) ≡ []
    other_notice client monitor none h = refl
    other_notice client monitor (some cols) h = rw h refl

    own_notice :
        (o : Option MonitorRequest)
        → keep_if (is_for c m) (notice_of c m table uuid update o)
          ≡ notice_of c m table uuid update o
    own_notice none = refl
    own_notice (some cols) = ground (arith, str_iff c c, str_iff m m)

    other_client :
        (client : String) (regs : ClientMonitor)
        → (client == c) ≡ false
        → keep_if (is_for c m) (notify_client client table uuid update regs) ≡ []
    unfolding notify_client
    other_client client [] h = refl
    other_client client ((k, reg) ∷ regs) h = ground (
      arith,
      keep_if-append (is_for c m) (notice_of client k table uuid update (lookup table reg))
          (notify_client client table uuid update regs),
      other_notice client k (lookup table reg) (ground (arith, h)),
      other_client client regs h,
    )

    missing_monitor :
        (regs : ClientMonitor)
        → lookup m regs ≡ none
        → keep_if (is_for c m) (notify_client c table uuid update regs) ≡ []
    unfolding notify_client lookup
    missing_monitor [] h = refl
    missing_monitor ((k, reg) ∷ regs) h = elim (Bool-cases (k == m)) [
      | inl same ↦ ground (arith, same, h)
      | inr other ↦ ground (
        arith,
        other,
        keep_if-append (is_for c m) (notice_of c k table uuid update (lookup table reg))
            (notify_client c table uuid update regs),
        other_notice c k (lookup table reg) (ground (arith, other)),
        missing_monitor regs (ground (arith, h, other)),
      )
    ]

    own_client :
        (regs : ClientMonitor)
        → IsMap regs
        → keep_if (is_for c m) (notify_client c table uuid update regs) ≡ due (lookup m regs)
    unfolding notify_client lookup
    own_client [] u = refl
    own_client ((k, reg) ∷ regs) u = elim (Bool-cases (k == m)) [
      | inl same ↦ of_same (ground (arith, str_iff k m, same)) u
      | inr other ↦ ground (
        arith,
        other,
        keep_if-append (is_for c m) (notice_of c k table uuid update (lookup table reg))
            (notify_client c table uuid update regs),
        other_notice c k (lookup table reg) (ground (arith, other)),
        own_client regs u.1,
      )
    ]
      where
        of_same :
            k ≡ m
            → IsMap ((k, reg) ∷ regs)
            → keep_if (is_for c m) (notify_client c table uuid update ((k, reg) ∷ regs))
              ≡ due (lookup m ((k, reg) ∷ regs))
        of_same e v = rw e (
            ground (
              arith,
              str_iff m m,
              keep_if-append (is_for c m) (notice_of c m table uuid update (lookup table reg))
                  (notify_client c table uuid update regs),
              own_notice (lookup table reg),
              missing_monitor regs (rw (sym e) v.0),
              append_nil (notice_of c m table uuid update (lookup table reg)),
            ))

    missing_client :
        (mm : MonitorManager)
        → lookup c mm ≡ none
        → keep_if (is_for c m) (notify table uuid update mm) ≡ []
    unfolding notify lookup
    missing_client [] h = refl
    missing_client ((k, regs) ∷ mm) h = elim (Bool-cases (k == c)) [
      | inl same ↦ ground (arith, same, h)
      | inr other ↦ ground (
        arith,
        other,
        keep_if-append (is_for c m) (notify_client k table uuid update regs)
            (notify table uuid update mm),
        other_client k regs other,
        missing_client mm (ground (arith, h, other)),
      )
    ]

    pub own_notices :
        (mm : MonitorManager)
        → IsMap mm
        → ((k : String) (regs : ClientMonitor) → lookup k mm ≡ some regs → IsMap regs)
        → keep_if (is_for c m) (notify table uuid update mm) ≡ due_client (lookup c mm)
    unfolding notify lookup
    own_notices [] u v = refl
    own_notices ((k, regs) ∷ mm) u v = elim (Bool-cases (k == c)) [
      | inl same ↦ of_same (ground (arith, str_iff k c, same))
      | inr other ↦ ground (
        arith,
        other,
        keep_if-append (is_for c m) (notify_client k table uuid update regs)
            (notify table uuid update mm),
        other_client k regs other,
        own_notices mm u.1 (λ j r e. v j r (later j r e)),
      )
    ]
      where
        later :
            (j : String) (r : ClientMonitor)
            → lookup j mm ≡ some r
            → lookup j ((k, regs) ∷ mm) ≡ some r
        later j r e = ground (arith, u.0, str_iff k j)

        of_same :
            k ≡ c
            → keep_if (is_for c m) (notify table uuid update ((k, regs) ∷ mm))
              ≡ due_client (lookup c ((k, regs) ∷ mm))
        of_same e = rw e (
            ground (
              arith,
              str_iff c c,
              keep_if-append (is_for c m) (notify_client c table uuid update regs)
                  (notify table uuid update mm),
              own_client regs (v k regs (ground (arith, str_iff k k))),
              missing_client mm (rw (sym e) u.0),
              append_nil (due (lookup m regs)),
            ))

-- every client and every monitor of a client is listed once
abbrev pub IsManaged : MonitorManager → Type 0
IsManaged mm =
    IsMap mm × ((k : String) (regs : ClientMonitor) → lookup k mm ≡ some regs → IsMap regs)
