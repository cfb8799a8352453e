-- ===== src/Log/Serialize.antt =====
-- The JSON value of a log line, as the attributes of the structs of src/log.rs and src/patch.rs
-- tell serde to derive it. The members are listed in the order of their keys, in which the map of
-- serde_json keeps them.
use tally_vcs.Prelude.{List, [], ◌∷◌, Option, none, some, ◌≡◌, refl}
use tally_vcs.Prelude.Bytes.{Bytes, bytes, str_eq}
use Prim.Native.String.{String}
use tally_vcs.Json.{
  natural, Value, null, number, string, array, object, Values, end, item, Members, stop, member,
}
use tally_vcs.Json.RecordId.{get_value, get_member, remove_member, id_key}
use tally_vcs.Log.{
  LogLine, Annotation, Provenance, agent, andon, union, fuse, Fuse, Origin, GitImport, HarnessCall,
}
use tally_vcs.Patch.{Op, edit, create, delete, chmod, Intent, RealizedEntry}

-- A field of type `String`.
abbrev text_field : String → Bytes → Members → Members
text_field key text ms = member (bytes key) (string text) ms

-- A field of type `Option`, which is null when there is no value.
abbrev nullable {ℓ} : {A : Type ℓ} → (A → Value) → Option A → Value
nullable to_value none = null
nullable to_value (some a) = to_value a

-- A field with `skip_serializing_if = "Option::is_none"`.
abbrev skipped {ℓ} : {A : Type ℓ} → String → (A → Value) → Option A → Members → Members
skipped key to_value none ms = ms
skipped key to_value (some a) ms = member (bytes key) (to_value a) ms

abbrev values_of {ℓ} : {A : Type ℓ} → (A → Value) → List A → Values
values_of to_value [] = end
values_of to_value (a ∷ rest) = item (to_value a) (values_of to_value rest)

unfoldable pub op_value : Op → Value
op_value (edit path old_str new_str) = object (
    member (bytes "edit")
      (object
        (text_field "new_str" new_str (text_field "old_str" old_str (text_field "path" path stop))))
      stop)
op_value (create path mode blob content_b64) = object (
    member (bytes "create")
      (object (
        skipped "blob" string blob (
          skipped "content_b64" string content_b64
            (text_field "mode" mode (text_field "path" path stop)))))
      stop)
op_value (delete path blob) =
    object
      (member (bytes "delete") (object (text_field "blob" blob (text_field "path" path stop))) stop)
op_value (chmod path old_mode new_mode) = object (
    member (bytes "chmod")
      (object (
        text_field "new_mode" new_mode
          (text_field "old_mode" old_mode (text_field "path" path stop))))
      stop)

unfoldable pub intent_value : Intent → Value
intent_value intent = object (member (bytes "ops") (array (values_of op_value intent.ops)) stop)

unfoldable pub realized_value : RealizedEntry → Value
realized_value e = object (skipped "add" string e.add (skipped "remove" string e.remove stop))

-- `rename_all = "lowercase"`
unfoldable pub provenance_value : Provenance → Value
provenance_value agent = string (bytes "agent")
provenance_value andon = string (bytes "andon")
provenance_value union = string (bytes "union")
provenance_value fuse = string (bytes "fuse")

unfoldable pub fuse_value : Fuse → Value
fuse_value f =
    object (text_field "from" f.from (text_field "name" f.name (text_field "to" f.to stop)))

unfoldable pub origin_value : Origin → Value
origin_value o = object (text_field "fork" o.fork (text_field "id" o.id stop))

unfoldable pub git_import_value : GitImport → Value
git_import_value g = object (
    text_field "algorithm" g.algorithm (
      text_field "commit" g.commit
        (skipped "reference" string g.reference (text_field "tree" g.tree stop))))

-- `skip_serializing_if = "Vec::is_empty"`
abbrev absorbed_field : List Bytes → Members → Members
absorbed_field [] ms = ms
absorbed_field (c ∷ cs) ms = member (bytes "absorbed") (array (values_of string (c ∷ cs))) ms

unfoldable pub harness_value : HarnessCall → Value
harness_value c = object (
    absorbed_field c.absorbed (
      text_field "call" c.call (
        text_field "entry" c.entry
          (text_field "harness" c.harness (text_field "tool" c.tool stop)))))

-- `reads` is a JSON value already.
abbrev itself : Value → Value
itself v = v

unfoldable pub annotation_value : Annotation → Value
annotation_value a = object (
    text_field "author" a.author (
      skipped "fuse" fuse_value a.fuse_span (
        skipped "harness" harness_value a.harness (
          skipped "import" git_import_value a.git_import (
            member (bytes "origin") (nullable origin_value a.origin) (
              member (bytes "prose") (nullable string a.prose) (
                member (bytes "provenance") (provenance_value a.provenance) (
                  skipped "reads" itself a.reads (
                    member (bytes "reason") (nullable string a.reason) (
                      member (bytes "session") (nullable string a.session)
                        (member (bytes "sig") (nullable string a.sig) stop)))))))))))

-- `serde_json::to_value(line)`
unfoldable pub to_members : LogLine → Members
to_members line = member (bytes "annotation") (annotation_value line.annotation) (
    member (bytes "committed_ms") (number (natural line.committed_ms)) (
      text_field "id" line.id (
        member (bytes "intent") (intent_value line.intent) (
          text_field "prev" line.prev (
            member (bytes "realized") (array (values_of realized_value line.realized))
              (text_field "sum_after" line.sum_after stop))))))

unfoldable pub to_value : LogLine → Value
to_value line = object (to_members line)

-- The member `id` is the id of the line.
pub get_value-to_value : (line : LogLine) → get_value id_key (to_value line) ≡ some (string line.id)
unfolding get_value get_member to_value to_members str_eq
get_value-to_value line = refl

-- The other members do not depend on the id.
pub remove_member-to_members :
    (line : LogLine) (id : Bytes)
    → remove_member id_key (to_members (record line { id = id }))
      ≡ remove_member id_key (to_members line)
unfolding remove_member to_members str_eq
remove_member-to_members line id = refl
