-- ===== src/NfcHal/Tests.antt =====
-- The theorem on components/nfc_hal at concrete data.
use osdp_reader_test_project.Common.{◌≡◌, true, none, replicate, arith}
use osdp_reader_test_project.Esp.{err, esp_fail}
use osdp_reader_test_project.Desfire.Transport.{desfire_xfer}
use osdp_reader_test_project.Pn532.Tests.{spi}
use osdp_reader_test_project.NfcHal.{over_pn532}
use osdp_reader_test_project.NfcHal.Limits.{xfer_too_long}
use osdp_reader_test_project.Samples.{platform, host}

xfer_too_long_example :
    desfire_xfer (over_pn532 spi none platform) 0x3D (replicate 250 0) 0 (host true)
    ≡ (err esp_fail, (let h = host true in record h { last_status = 0xFF }))
xfer_too_long_example =
    xfer_too_long spi none platform 0x3D (replicate 250 0) 0 (host true) (omega arith) (omega arith)
