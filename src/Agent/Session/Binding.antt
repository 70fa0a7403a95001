-- ===== src/Agent/Session/Binding.antt =====
-- A session keeps to one sandbox: over saving, loading and binding again.
use agentgarage.Prelude.{◌≡◌, ◌≢◌, none, some, arith, text_eq, text_eq_iff, [], if◌then◌else◌}
use agentgarage.Agent.Session.{Box, Session, mismatch, nil_sandbox, bind, to_record, of_record}

-- A session that recorded a name, stored and loaded, has everything but its handle. It can be bound
-- exactly to a handle of the sandbox that it recorded, and is then the session that was stored, in
-- that handle; any other handle is refused and changes nothing.
resume_binds_same :
    (s : Session) (box : Box)
    → s.name ≢ []
    → let loaded = of_record (to_record s) in
      (bind (some box) loaded ≡ (
        if text_eq box.name s.name
        then (none, record s { box = some box })
        else (some mismatch, loaded)))
      × (bind none loaded ≡ (some nil_sandbox, loaded))
unfolding bind of_record to_record
resume_binds_same s box named =
    (ground (arith, text_eq_iff s.name [], text_eq_iff box.name s.name), ground arith)
