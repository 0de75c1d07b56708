-- ===== src/Pn5180.antt =====
-- components/pn5180: the chip on its SPI bus, ISO 14443-3 activation and ISO 14443-4 blocks.
pub mod Spi
pub mod Transceive
pub mod Activate
pub mod Apdu
mod Tests
