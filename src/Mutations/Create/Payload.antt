-- ===== src/Mutations/Create/Payload.antt =====
-- The payload of a creation event, read back.
use lazarus.Base.{ltb, ◌≡◌, refl, true, false, eq_iff, some, arith}
use lazarus.Json.{Json, obj, str, num, field, end, print, is_valid, is_empty}
use lazarus.Env.{Env}
use lazarus.Model.{Maintenance, int64_limit}
use lazarus.Journal.{detail_value}
use lazarus.Payloads.Written.{print-is_empty}
use lazarus.Mutations.Create.{marshal_maintenance, text_field}
use lazarus.Replay.Created.{unmarshal_maintenance}

module _ (env : Env) (m : Maintenance) (v : Json) (canonical : m.metadata ≡ print v)
    (small : ltb m.version int64_limit ≡ true) where
  pub unmarshal-marshal : unmarshal_maintenance env (marshal_maintenance env m) ≡ some m
  unfolding unmarshal_maintenance marshal_maintenance print
  unmarshal-marshal = ground (
    arith,
    env.parse-format m.created_at,
    env.parse-format m.updated_at,
    canonical,
    small,
    eq_iff m.change_ticket "",
    eq_iff m.workflow_version "",
  )

pub marshal-valid :
    (env : Env) (m : Maintenance)
    → (is_valid (marshal_maintenance env m) ≡ true) × (is_empty (marshal_maintenance env m) ≡ false)
unfolding marshal_maintenance print
marshal-valid env m = (
  refl,
  print-is_empty (
      obj (
        field "id" (str m.id) (
          field "state" (str m.state) (
            text_field "change_ticket" m.change_ticket (
              text_field "workflow_version" m.workflow_version (
                field "metadata" (detail_value m.metadata.value) (
                  field "version" (num m.version) (
                    field "created_at" (str (env.format_time m.created_at))
                      (field "updated_at" (str (env.format_time m.updated_at)) end))))))))),
)
