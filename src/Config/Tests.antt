-- ===== src/Config/Tests.antt =====
-- A configuration with an unknown network and a port out of range.
use dnn_node.Base.{◌≡◌, refl, ◌↔◌}
use dnn_node.Base.Bytes.{codes}
use dnn_node.Base.Int.{pos}
use dnn_node.Config.{Config, default_config, validate, fix_network, fix_port}
use dnn_node.Config.Checked.{IsValid, validate-IsValid}

abbrev wrong : Config
wrong = record (default_config (pos 70000) (codes "./data")) { network = codes "regtest" }

repaired : ((validate wrong).network ≡ codes "testnet") × ((validate wrong).port ≡ pos 8080)
unfolding validate fix_network fix_port default_config
repaired = (refl, refl)

validate-IsValid_example : IsValid (validate wrong) × ((validate wrong ≡ wrong) ↔ IsValid wrong)
validate-IsValid_example = validate-IsValid wrong
