-- ===== src/Scope/Tests.antt =====
-- Names on concrete texts.
use rtl_debugger.Common.{none, some, false}
use rtl_debugger.Common.Text.{codes}
use rtl_debugger.Proto.{ItemDescription, node, ScopeDescription, module_scope, no_attributes}

abbrev wire : ItemDescription
wire = node (record {
  src = none;
  lsb_at = 0;
  width = 8;
  input = false;
  output = false;
  settable = false;
  attributes = no_attributes;
})

abbrev block : ScopeDescription
block =
    module_scope (record { src = none; name = some (codes "core"); attributes = no_attributes })
      (record { src = none; attributes = no_attributes })
