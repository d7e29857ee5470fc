-- ===== src/Ble/DeviceType/First.antt =====
-- ble-sensor/main.py: `KNOWN_OUIS`, its first half.
use smart_trucks.Base.{List, [], ◌∷◌}
use smart_trucks.Base.Text.{Text, codes}

unfoldable pub first_ouis : List (Text × Text)
first_ouis =
    (codes "A4:C1:38", codes "Govee")
    ∷ (codes "4C:57:CA", codes "Apple")
    ∷ (codes "04:52:CE", codes "Apple")
    ∷ (codes "00:11:22", codes "Sensoro")
    ∷ (codes "CC:7A:00", codes "Garmin")
    ∷ (codes "00:12:36", codes "Samsung")
    ∷ (codes "D4:36:39", codes "Tile")
    ∷ (codes "00:24:E4", codes "Withings")
    ∷ (codes "00:04:3E", codes "LG")
    ∷ (codes "00:00:F0", codes "Samsung Electronics Co.,Ltd")
    ∷ (codes "00:03:19", codes "Infineon AG")
    ∷ (codes "00:03:89", codes "Plantronics, Inc.")
    ∷ (codes "00:04:3C", codes "SONOS Co., Ltd.")
    ∷ (codes "00:04:A3", codes "Microchip Technology Inc.")
    ∷ (codes "00:09:2D", codes "HTC Corporation")
    ∷ (codes "00:0A:00", codes "MediaTek Inc")
    ∷ (codes "00:0A:F7", codes "Broadcom")
    ∷ (codes "00:0E:DD", codes "Shure Incorporated")
    ∷ (codes "00:0F:AF", codes "Dialog Inc.")
    ∷ (codes "00:12:EE", codes "Sony Corporation")
    ∷ (codes "00:12:F3", codes "u-blox AG")
    ∷ (codes "00:12:FE", codes "Lenovo Mobile Communication Technology Ltd.")
    ∷ (codes "00:13:17", codes "GN Netcom A/S")
    ∷ (codes "00:16:94", codes "Sennheiser Communications A/S")
    ∷ (codes "00:17:A5", codes "MediaTek Inc")
    ∷ (codes "00:17:E3", codes "Texas Instruments")
    ∷ (codes "00:17:E4", codes "Texas Instruments")
    ∷ (codes "00:17:F2", codes "Apple, Inc.")
    ∷ (codes "00:18:00", codes "Nintendo Co., Ltd.")
    ∷ (codes "00:18:2F", codes "Texas Instruments")
    ∷ (codes "00:19:7F", codes "Plantronics, Inc.")
    ∷ (codes "00:1A:75", codes "Sony Corporation")
    ∷ (codes "00:1A:80", codes "Sony Corporation")
    ∷ (codes "00:1C:D7", codes "Harman/Becker Automotive Systems GmbH")
    ∷ (codes "00:1E:C0", codes "Microchip Technology Inc.")
    ∷ (codes "00:20:12", codes "Beijing Xiaomi Mobile Software Co., Ltd")
    ∷ (codes "00:22:D0", codes "Polar Electro Oy")
    ∷ (codes "00:24:E4", codes "Withings")
    ∷ (codes "00:28:E1:4C", codes "Apple, Inc.")
    ∷ (codes "00:34:7E:5C", codes "Sonos, Inc.")
    ∷ (codes "00:38:F0:C8", codes "Logitech")
    ∷ (codes "00:38:F2:3E", codes "Microsoft Mobile Oy")
    ∷ (codes "00:38:F3:2E", codes "Skullcandy")
    ∷ (codes "00:3C:D0:F8", codes "Apple, Inc.")
    ∷ (codes "00:40:82:7B", codes "STMicroelectronics Rousset SAS")
    ∷ (codes "00:44:91:60", codes "Murata Manufacturing Co., Ltd.")
    ∷ (codes "00:48:23:35", codes "Dialog Semiconductor Hellas SA")
    ∷ (codes "00:50:8E:49", codes "Xiaomi Communications Co Ltd")
    ∷ (codes "00:50:8F:4C", codes "Xiaomi Communications Co Ltd")
    ∷ (codes "00:50:92:6A", codes "Beijing Xiaomi Mobile Software Co., Ltd")
    ∷ (codes "00:60:AB:D2", codes "Bose Corporation")
    ∷ (codes "00:64:9C:81", codes "Qualcomm Inc.")
    ∷ (codes "00:6C:D0:32", codes "LG Electronics")
    ∷ (codes "00:74:C2:46", codes "Amazon Technologies Inc.")
    ∷ (codes "00:74:D4:23", codes "Amazon Technologies Inc.")
    ∷ (codes "00:74:D6:37", codes "Amazon Technologies Inc.")
    ∷ (codes "00:80:E1", codes "STMicroelectronics SRL")
    ∷ (codes "00:88:C6:26", codes "Logitech, Inc")
    ∷ (codes "00:90:FB:93", codes "Renesas Design US Inc.")
    ∷ (codes "00:91:EB", codes "Renesas Electronics (Penang) Sdn. Bhd.")
    ∷ (codes "00:A0:50", codes "Cypress Semiconductor")
    ∷ (codes "00:A0:C6", codes "Qualcomm Inc.")
    ∷ (codes "00:BD:3A", codes "Nokia Corporation")
    ∷ (codes "00:B4:63", codes "Ring LLC")
    ∷ (codes "02:2A:7B", codes "Nintendo Co., Ltd.")
    ∷ (codes "04:7A:0B", codes "Beijing Xiaomi Electronics Co.,Ltd.")
    ∷ (codes "04:CF:8C", codes "XIAOMI Electronics,CO.,LTD")
    ∷ (codes "04:E8:B9", codes "Intel Corporate")
    ∷ (codes "08:C8:C2", codes "GN Audio A/S")
    ∷ (codes "08:D1:F9", codes "Espressif Inc.")
    ∷ (codes "08:DF:1F", codes "Bose Corporation")
    ∷ (codes "0B:FC:83", codes "Airoha Technology Corp.,")
    ∷ (codes "0C:41:3E", codes "Microsoft Corporation")
    ∷ (codes "0C:8C:DC", codes "Suunto Oy")
    ∷ (codes "0C:B8:E8", codes "Renesas Electronics (Penang) Sdn. Bhd.")
    ∷ (codes "0C:FC:83", codes "Airoha Technology Corp.,")
    ∷ (codes "10:F1:F2", codes "LG Electronics (Mobile Communications)")
    ∷ (codes "10:F9:6F", codes "LG Electronics (Mobile Communications)")
    ∷ (codes "14:30:C6", codes "Motorola Mobility LLC, a Lenovo Company")
    ∷ (codes "14:36:05", codes "Nokia Corporation")
    ∷ (codes "14:36:C6", codes "Lenovo Mobile Communication Technology Ltd.")
    ∷ (codes "14:8F:21", codes "Garmin International")
    ∷ (codes "14:8F:79", codes "Apple, Inc.")
    ∷ (codes "14:8F:C6", codes "Apple, Inc.")
    ∷ (codes "14:94:6C", codes "Apple, Inc.")
    ∷ (codes "14:95:CE", codes "Apple, Inc.")
    ∷ (codes "18:00:DB", codes "Fitbit, Inc.")
    ∷ (codes "18:19:D6", codes "Samsung Electronics Co.,Ltd")
    ∷ (codes "18:1E:B0", codes "Samsung Electronics Co.,Ltd")
    ∷ (codes "18:20:32", codes "Apple, Inc.")
    ∷ (codes "18:21:95", codes "Samsung Electronics Co.,Ltd")
    ∷ (codes "18:22:7E", codes "Samsung Electronics Co.,Ltd")
    ∷ (codes "18:26:54", codes "Samsung Electronics Co.,Ltd")
    ∷ (codes "18:26:66", codes "Samsung Electronics Co.,Ltd")
    ∷ (codes "18:7F:88", codes "Ring LLC")
    ∷ (codes "20:33:89", codes "Google, Inc.")
    ∷ (codes "20:34:62", codes "Xiaomi Communications Co Ltd")
    ∷ (codes "20:34:FB", codes "Xiaomi Communications Co Ltd")
    ∷ (codes "20:72:A9", codes "Beijing Xiaomi Electronics Co.,Ltd.")
    ∷ (codes "20:76:93", codes "Lenovo (Beijing) Limited.")
    ∷ (codes "20:BA:36", codes "u-blox AG")
    ∷ (codes "20:DE:1E", codes "Nokia")
    ∷ (codes "20:E0:9C", codes "Nokia")
    ∷ (codes "20:EF:BD", codes "Roku, Inc")
    ∷ (codes "24:29:B0", codes "Huawei Technologies Co.,Ltd")
    ∷ (codes "24:2A:EA", codes "Apple, Inc.")
    ∷ (codes "24:2E:02", codes "Huawei Technologies Co.,Ltd")
    ∷ (codes "24:30:F8", codes "Huawei Device Co., Ltd.")
    ∷ (codes "24:3F:AA", codes "Huawei Device Co., Ltd.")
    ∷ (codes "24:44:27", codes "Huawei Technologies Co.,Ltd")
    ∷ (codes "24:45:6B", codes "Huawei Device Co., Ltd.")
    ∷ (codes "24:46:E4", codes "Huawei Technologies Co.,Ltd")
    ∷ (codes "24:48:85", codes "Huawei Device Co., Ltd.")
    ∷ (codes "24:5B:83", codes "Renesas Electronics (Penang) Sdn. Bhd.")
    ∷ (codes "24:AC:AC", codes "Polar Electro Oy")
    ∷ (codes "24:B3:39", codes "Apple, Inc.")
    ∷ (codes "28:11:A5", codes "Bose Corporation")
    ∷ (codes "2C:54:CF", codes "LG Electronics (Mobile Communications)")
    ∷ (codes "2C:59:8A", codes "LG Electronics (Mobile Communications)")
    ∷ (codes "2C:A7:EF", codes "OnePlus Technology (Shenzhen) Co., Ltd")
    ∷ (codes "2C:AA:8E", codes "Wyze Labs Inc")
    ∷ (codes "30:89:A6", codes "Huawei Technologies Co.,Ltd")
    ∷ (codes "30:8D:D4", codes "Huawei Technologies Co.,Ltd")
    ∷ (codes "30:8E:CF", codes "Huawei Technologies Co.,Ltd")
    ∷ (codes "30:90:48", codes "Apple, Inc.")
    ∷ (codes "30:90:AB", codes "Apple, Inc.")
    ∷ (codes "30:96:10", codes "Huawei Device Co., Ltd.")
    ∷ (codes "30:96:3B", codes "Huawei Device Co., Ltd.")
    ∷ (codes "30:A2:C2", codes "Huawei Device Co., Ltd.")
    ∷ (codes "34:08:E1", codes "Texas Instruments")
    ∷ (codes "34:10:5D", codes "Texas Instruments")
    ∷ (codes "34:10:F4", codes "Silicon Laboratories")
    ∷ (codes "34:14:B5", codes "Texas Instruments")
    ∷ (codes "34:90:EA", codes "Murata Manufacturing Co., Ltd.")
    ∷ (codes "38:3D:5B", codes "Fiberhome Telecommunication Technologies Co.,LTD")
    ∷ (codes "38:42:0B", codes "Sonos, Inc.")
    ∷ (codes "38:5B:44", codes "Silicon Laboratories")
    ∷ (codes "38:C1:AC", codes "Plantronics, Inc.")
    ∷ (codes "40:31:3C", codes "XIAOMI Electronics,CO.,LTD")
    ∷ (codes "40:4E:36", codes "HTC Corporation")
    ∷ (codes "40:84:32", codes "Microchip Technology Inc.")
    ∷ (codes "44:1B:F6", codes "Espressif Inc.")
    ∷ (codes "44:73:D6", codes "Logitech")
    ∷ (codes "44:91:60", codes "Murata Manufacturing Co., Ltd.")
    ∷ (codes "48:22:54", codes "TP-Link Systems Inc")
    ∷ (codes "48:3C:0C", codes "Huawei Technologies Co.,Ltd")
    ∷ (codes "48:7B:2F", codes "Microsoft Corporation")
    ∷ (codes "48:86:E8", codes "Microsoft Corporation")
    ∷ (codes "4C:4F:EE", codes "OnePlus Technology (Shenzhen) Co., Ltd")
    ∷ (codes "4C:87:5D", codes "Bose Corporation")
    ∷ []
