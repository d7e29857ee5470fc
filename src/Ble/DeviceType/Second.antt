-- ===== src/Ble/DeviceType/Second.antt =====
-- ble-sensor/main.py: `KNOWN_OUIS`, its second half.
use smart_trucks.Base.{List, [], ◌∷◌}
use smart_trucks.Base.Text.{Text, codes}

unfoldable pub second_ouis : List (Text × Text)
second_ouis =
    (codes "4C:A0:D4", codes "Telink Semiconductor (Shanghai) Co., Ltd.")
    ∷ (codes "50:3C:C4", codes "Lenovo Mobile Communication Technology Ltd.")
    ∷ (codes "54:04:2B", codes "Lenovo Mobile Communication (Wuhan) Company Limited")
    ∷ (codes "54:19:C8", codes "vivo Mobile Communication Co., Ltd.")
    ∷ (codes "54:53:ED", codes "Sony Corporation")
    ∷ (codes "54:64:DE", codes "u-blox AG")
    ∷ (codes "54:F8:2A", codes "u-blox AG")
    ∷ (codes "58:8E:81", codes "Silicon Laboratories")
    ∷ (codes "58:E6:C5", codes "Espressif Inc.")
    ∷ (codes "60:09:C3", codes "u-blox AG")
    ∷ (codes "60:83:73", codes "Apple, Inc.")
    ∷ (codes "60:8B:0E", codes "Apple, Inc.")
    ∷ (codes "60:8C:4A", codes "Apple, Inc.")
    ∷ (codes "60:92:17", codes "Apple, Inc.")
    ∷ (codes "64:7B:D4", codes "Texas Instruments")
    ∷ (codes "64:8C:BB", codes "Texas Instruments")
    ∷ (codes "64:95:6C", codes "LG Electronics")
    ∷ (codes "64:9E:31", codes "Beijing Xiaomi Mobile Software Co., Ltd")
    ∷ (codes "64:BC:0C", codes "LG Electronics (Mobile Communications)")
    ∷ (codes "64:C2:DE", codes "LG Electronics (Mobile Communications)")
    ∷ (codes "68:28:6C", codes "Sony Interactive Entertainment Inc.")
    ∷ (codes "68:B6:B3", codes "Espressif Inc.")
    ∷ (codes "68:B8:BB", codes "Beijing Xiaomi Electronics Co.,Ltd.")
    ∷ (codes "6B:FC:83", codes "Airoha Technology Corp.,")
    ∷ (codes "6C:1D:EB", codes "u-blox AG")
    ∷ (codes "70:72:0D", codes "Lenovo Mobile Communication Technology Ltd.")
    ∷ (codes "74:04:2B", codes "Lenovo Mobile Communication (Wuhan) Company Limited")
    ∷ (codes "74:7A:90", codes "Murata Manufacturing Co., Ltd.")
    ∷ (codes "74:DC:13", codes "Telink Micro LLC")
    ∷ (codes "74:E1:82", codes "Texas Instruments")
    ∷ (codes "74:EF:4B", codes "Guangdong Oppo Mobile Telecommunications Corp.,Ltd")
    ∷ (codes "78:11:DC", codes "XIAOMI Electronics,CO.,LTD")
    ∷ (codes "78:2B:64", codes "Bose Corporation")
    ∷ (codes "78:34:86", codes "Nokia")
    ∷ (codes "78:53:33", codes "Beijing Xiaomi Electronics Co.,Ltd.")
    ∷ (codes "78:A8:73", codes "Samsung Electronics Co.,Ltd")
    ∷ (codes "78:AB:BB", codes "Samsung Electronics Co.,Ltd")
    ∷ (codes "7C:61:93", codes "HTC Corporation")
    ∷ (codes "7C:67:AB", codes "Roku, Inc")
    ∷ (codes "7C:78:B2", codes "Wyze Labs Inc")
    ∷ (codes "7C:C0:AA", codes "Microsoft Corporation")
    ∷ (codes "80:01:5C", codes "Synaptics, Inc")
    ∷ (codes "80:4A:14", codes "Apple, Inc.")
    ∷ (codes "80:4A:F2", codes "Sonos, Inc.")
    ∷ (codes "80:4C:5D", codes "NXP Semiconductor (Tianjin) LTD.")
    ∷ (codes "80:48:2C", codes "Wyze Labs Inc")
    ∷ (codes "80:49:71", codes "Apple, Inc.")
    ∷ (codes "80:50:1B", codes "Nokia Corporation")
    ∷ (codes "80:54:2D", codes "Samsung Electronics Co.,Ltd")
    ∷ (codes "80:54:9C", codes "Samsung Electronics Co.,Ltd")
    ∷ (codes "80:54:E3", codes "Apple, Inc.")
    ∷ (codes "80:57:19", codes "Samsung Electronics Co.,Ltd")
    ∷ (codes "80:58:F8", codes "Motorola Mobility LLC, a Lenovo Company")
    ∷ (codes "84:63:D6", codes "Microsoft Corporation")
    ∷ (codes "84:68:78", codes "Apple, Inc.")
    ∷ (codes "84:F7:03", codes "Espressif Inc.")
    ∷ (codes "88:0F:A2", codes "Sagemcom Broadband SAS")
    ∷ (codes "88:12:4E", codes "Qualcomm Inc.")
    ∷ (codes "88:C6:26", codes "Logitech, Inc")
    ∷ (codes "90:35:EA", codes "Silicon Laboratories")
    ∷ (codes "90:CC:24", codes "Synaptics, Inc")
    ∷ (codes "94:44:44", codes "LG Innotek")
    ∷ (codes "94:65:2D", codes "OnePlus Technology (Shenzhen) Co., Ltd")
    ∷ (codes "94:6A:7C", codes "OnePlus Technology (Shenzhen) Co., Ltd")
    ∷ (codes "94:95:A0", codes "Google, Inc.")
    ∷ (codes "94:9F:3E", codes "Sonos, Inc.")
    ∷ (codes "98:CF:7D", codes "Apple, Inc.")
    ∷ (codes "98:DD:60", codes "Apple, Inc.")
    ∷ (codes "98:E0:D9", codes "Apple, Inc.")
    ∷ (codes "A0:22:DE", codes "vivo Mobile Communication Co., Ltd.")
    ∷ (codes "A0:38:F8", codes "OURA Health Oy")
    ∷ (codes "A0:56:B2", codes "Harman/Becker Automotive Systems GmbH")
    ∷ (codes "A0:88:69", codes "Intel Corporate")
    ∷ (codes "A0:9E:1A", codes "Polar Electro Oy")
    ∷ (codes "A0:BD:71", codes "QUALCOMM Incorporated")
    ∷ (codes "A4:7E:FA", codes "Withings")
    ∷ (codes "A4:8C:DB", codes "Lenovo")
    ∷ (codes "A4:C7:88", codes "Xiaomi Communications Co Ltd")
    ∷ (codes "A4:CC:B3", codes "Xiaomi Communications Co Ltd")
    ∷ (codes "A8:79:8D", codes "Samsung Electronics Co.,Ltd")
    ∷ (codes "A8:86:DD", codes "Apple, Inc.")
    ∷ (codes "A8:88:08", codes "Apple, Inc.")
    ∷ (codes "A8:8C:3E", codes "Microsoft Corporation")
    ∷ (codes "A8:8E:24", codes "Apple, Inc.")
    ∷ (codes "A8:91:3D", codes "Apple, Inc.")
    ∷ (codes "A8:96:8A", codes "Apple, Inc.")
    ∷ (codes "A8:7B:39", codes "Nokia Corporation")
    ∷ (codes "B4:C2:6A", codes "Garmin International")
    ∷ (codes "B8:21:1C", codes "Apple, Inc.")
    ∷ (codes "B8:22:0C", codes "Apple, Inc.")
    ∷ (codes "B8:27:EB", codes "Raspberry Pi Foundation")
    ∷ (codes "B8:2A:A9", codes "Apple, Inc.")
    ∷ (codes "B8:4F:D5", codes "Microsoft Corporation")
    ∷ (codes "B8:5C:5C", codes "Microsoft Corporation")
    ∷ (codes "BC:79:AD", codes "Samsung Electronics Co.,Ltd")
    ∷ (codes "BC:87:FA", codes "Bose Corporation")
    ∷ (codes "BC:7F:A4", codes "Xiaomi Communications Co Ltd")
    ∷ (codes "BC:89:A6", codes "Nintendo Co., Ltd.")
    ∷ (codes "BC:F2:12", codes "Telink Micro LLC")
    ∷ (codes "BC:F2:92", codes "Plantronics, Inc.")
    ∷ (codes "C0:1C:6A", codes "Google, Inc.")
    ∷ (codes "C0:2E:25", codes "Guangdong Oppo Mobile Telecommunications Corp.,Ltd")
    ∷ (codes "C0:28:8D", codes "Logitech, Inc")
    ∷ (codes "C4:19:D1", codes "Telink Semiconductor (Shanghai) Co., Ltd.")
    ∷ (codes "C4:22:4E", codes "Telink Micro LLC")
    ∷ (codes "C4:DE:E2", codes "Espressif Inc.")
    ∷ (codes "C8:02:10", codes "LG Innotek")
    ∷ (codes "C8:3A:6B", codes "Roku, Inc")
    ∷ (codes "C8:B6:FE", codes "Fitbit, Inc.")
    ∷ (codes "C8:DB:26", codes "Logitech, Inc")
    ∷ (codes "CC:DA:20", codes "Beijing Xiaomi Mobile Software Co., Ltd")
    ∷ (codes "CC:D8:43", codes "Beijing Xiaomi Mobile Software Co., Ltd")
    ∷ (codes "CC:DE:DE", codes "Nokia")
    ∷ (codes "CC:F9:57", codes "u-blox AG")
    ∷ (codes "CC:FB:65", codes "Nintendo Co., Ltd.")
    ∷ (codes "CC:FE:3C", codes "Samsung Electronics Co.,Ltd")
    ∷ (codes "CC:FF:90", codes "Huawei Device Co., Ltd.")
    ∷ (codes "D0:03:4B", codes "Apple, Inc.")
    ∷ (codes "D0:03:DF", codes "Samsung Electronics Co.,Ltd")
    ∷ (codes "D0:3F:27", codes "Wyze Labs Inc")
    ∷ (codes "D4:01:29", codes "Broadcom")
    ∷ (codes "D4:04:E6", codes "Broadcom Limited")
    ∷ (codes "D4:43:8A", codes "Beijing Xiaomi Mobile Software Co., Ltd")
    ∷ (codes "D4:48:67", codes "Silicon Laboratories")
    ∷ (codes "D4:53:2A", codes "Beijing Xiaomi Mobile Software Co., Ltd")
    ∷ (codes "D4:53:83", codes "Murata Manufacturing Co., Ltd.")
    ∷ (codes "D8:13:2A", codes "Espressif Inc.")
    ∷ (codes "D8:5F:77", codes "Telink Semiconductor (Shanghai) Co., Ltd.")
    ∷ (codes "E0:2C:B2", codes "Lenovo Mobile Communication (Wuhan) Company Limited")
    ∷ (codes "E0:A3:66", codes "Motorola Mobility LLC, a Lenovo Company")
    ∷ (codes "E0:D4:64", codes "Intel Corporate")
    ∷ (codes "E0:DE:F2", codes "Texas Instruments")
    ∷ (codes "E4:45:19", codes "Beijing Xiaomi Electronics Co.,Ltd.")
    ∷ (codes "E4:5E:37", codes "Intel Corporate")
    ∷ (codes "E4:5F:01", codes "Raspberry Pi Trading Ltd")
    ∷ (codes "E4:60:17", codes "Intel Corporate")
    ∷ (codes "EC:10:55", codes "Beijing Xiaomi Electronics Co.,Ltd.")
    ∷ (codes "EC:41:18", codes "XIAOMI Electronics,CO.,LTD")
    ∷ (codes "EC:81:93", codes "Logitech, Inc")
    ∷ (codes "EC:FA:5C", codes "Beijing Xiaomi Electronics Co.,Ltd.")
    ∷ (codes "F0:6E:0B", codes "Microsoft Corporation")
    ∷ (codes "F0:C8:8B", codes "Wyze Labs Inc")
    ∷ (codes "F0:F6:C1", codes "Sonos, Inc.")
    ∷ (codes "F4:CE:36", codes "Nordic Semiconductor ASA")
    ∷ (codes "F4:F5:D8", codes "Google, Inc.")
    ∷ (codes "F8:0F:F9", codes "Google, Inc.")
    ∷ (codes "F8:10:93", codes "Apple, Inc.")
    ∷ (codes "F8:E0:79", codes "Motorola Mobility LLC, a Lenovo Company")
    ∷ (codes "F8:EF:5D", codes "Motorola Mobility LLC, a Lenovo Company")
    ∷ (codes "F8:F1:B6", codes "Motorola Mobility LLC, a Lenovo Company")
    ∷ []
